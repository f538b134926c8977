-- ===== src/Examples/Diagnostics.antt =====
-- Examples for the diagnostics, with a language model that cannot be reached when the server is
-- down and answers an empty message otherwise.
use feature_store.Common.{ℕ, ◌≤◌, ◌≡◌, refl, false, none, [], str_eq, if◌then◌else◌}
use feature_store.Common.Exec.{ok, err, api_connection_error}
use feature_store.Float.Fixed.{Fixed, fixed_float, Fixed-OrderLaws}
use feature_store.Redis.Memory.{Memory, empty, memory_redis}
use feature_store.Tenacity.Simple.{simple_tenacity, simple-TenacityLaws}
use feature_store.Diagnostics.Schemas.{DiagnosticsConfig, DriftReport}
use feature_store.Diagnostics.RcaEngine.{Messages, Engine, ask_llm, analyze}
use feature_store.Diagnostics.RcaEngine.Analysis.{Tries, Decided, analyze_cases}
use feature_store.Api.Admin.{RcaRequest, RcaResponse, run_rca}
use feature_store.Api.Admin.Laws.{run_rca_no_key}
use feature_store.Api.Health.{Probe}
use feature_store.Examples.World.{tiny, memory_clock, plain_format}

instance abbrev no_messages : Messages Memory Fixed
no_messages = record {
  create = λ model n text w.
      if w.up
      then (ok (record { content = []; input_tokens = 0; output_tokens = 0 }), w)
      else (err api_connection_error, w);
}

abbrev no_key : DiagnosticsConfig
no_key = record {
  anthropic_api_key = "";
  anthropic_model = "claude-sonnet-4-5";
  rca_max_tokens = 1024;
}

abbrev with_key : DiagnosticsConfig
with_key = record no_key { anthropic_api_key = "key" }

abbrev drift_report : DriftReport Fixed
drift_report = record {
  feature_name = "txn_count_5m";
  psi_score = fixed_float.lit 15 2;
  ks_statistic = fixed_float.lit 1 1;
  ks_p_value = fixed_float.lit 2 2;
  z_score = fixed_float.lit 35 1;
  severity = "warn";
  baseline_period = "last_7d";
  current_period = "last_1h";
  sample_size = 500;
  kl_divergence = fixed_float.lit 0 0;
  computed_at = tiny 7;
}

abbrev engine : Engine Memory
engine = record { has_client = false; world = empty }

analyze_cases_example :
    let (d, e') = analyze with_key drift_report none engine in
    (n : ℕ) × (v : Engine Memory) × (n ≤ 2)
    × Tries (ask_llm with_key drift_report none) (λ e. e) n engine v
    × Decided simple-TenacityLaws with_key drift_report none n v d e'
analyze_cases_example =
    analyze_cases simple-TenacityLaws with_key drift_report none engine
      (analyze with_key drift_report none engine).1 (analyze with_key drift_report none engine).0
      refl

abbrev rca_request : RcaRequest Fixed
rca_request = record {
  feature_name = "txn_count_5m";
  psi_score = fixed_float.lit 1 2;
  ks_statistic = fixed_float.lit 1 2;
  z_score = fixed_float.lit 0 0;
  severity = "ok";
}

run_rca_no_key_example :
    (x : RcaResponse Fixed) × (run_rca no_key rca_request engine ≡ (ok x, engine))
    × (x.feature_name ≡ "txn_count_5m")
    × (str_eq x.cause_category "unknown" ≡ false)
run_rca_no_key_example =
    run_rca_no_key Fixed-OrderLaws simple-TenacityLaws no_key rca_request engine refl refl

instance abbrev memory_probe : Probe Memory
memory_probe = record { select_one = λ w. (ok tt, w) }
