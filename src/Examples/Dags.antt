-- ===== src/Examples/Dags.antt =====
-- Examples for the graphs of Airflow.
use feature_store.Common.{◌≡◌, refl, true, false, none, some, [], ◌∷◌, All, str_eq, if◌then◌else◌}
use feature_store.Common.Dict.{lookup}
use feature_store.Common.Exec.{Result, ok, err, api_connection_error}
use feature_store.Float.Fixed.{Fixed, fixed_float, Fixed-OrderLaws, Fixed-ArithLaws, read, value}
use feature_store.Float.Int.{◌+ℤ◌, ◌-ℤ◌, ◌*ℤ◌}
use feature_store.Numpy.Simple.{simple_numpy}
use feature_store.Redis.Memory.{Memory, memory_redis}
use feature_store.Tenacity.Simple.{simple_tenacity, simple-TenacityLaws}
use feature_store.OnlineStore.KeySchema.{baseline_key}
use feature_store.Validation.Psi.{
  compute_psi, psi_severity, psi_over, psi_terms, shares, raise_last, psi_term,
}
use feature_store.Drift.BaselineManager.{Json, load_baseline, parse_baseline}
use feature_store.Drift.Detector.{
  default_config, detect_drift, detect_among, detect_one, compare, note,
}
use feature_store.Diagnostics.Schemas.{DiagnosticsConfig}
use feature_store.Diagnostics.RcaEngine.{Messages}
use feature_store.Airflow.Dag.Simple.{simple_scheduler, simple-SchedulerLaws, attempts, or_again}
use feature_store.Airflow.DriftMonitoring.{
  sampled, load_current_distributions, MetricsTable, run_drift_detection, branch_on_drift,
}
use feature_store.Airflow.DriftMonitoring.Branches.{IsSample}
use feature_store.Airflow.DriftMonitoring.Graph.{
  DriftRun, drift_ok_done, run_drift_monitoring, chosen_task, rca_task,
}
use feature_store.Airflow.DriftMonitoring.Graph.Runs.{IsEnding, run_drift_monitoring_lem}
use feature_store.Examples.World.{tiny, memory_clock, plain_format, ann}

instance abbrev one_float_json : Json Fixed
one_float_json = record {
  dumps = λ xs. "";
  loads = λ s. ok (tiny 1 ∷ tiny 2 ∷ tiny 3 ∷ tiny 4 ∷ []);
}

instance abbrev no_table : MetricsTable Memory Fixed
no_table = record { insert = λ k t v w. (ok tt, w) }

instance abbrev unreachable : Messages Memory Fixed
unreachable = record { create = λ model n text w. (err api_connection_error, w) }

abbrev with_key : DiagnosticsConfig
with_key = record {
  anthropic_api_key = "key";
  anthropic_model = "claude-sonnet-4-5";
  rca_max_tokens = 1024;
}

-- two active users with nine transactions, where the baseline has four at most
abbrev shifted : Memory
shifted = record {
  up = true;
  hash = λ k. ("txn_count_5m", "+1001") ∷ [];
  expiry = λ k. none;
  members = λ k. ann ∷ "usr_00002" ∷ [];
  text = λ k. if str_eq k "baseline:dist:txn_count_5m" then some "+1" else none;
}

abbrev run_of : Result (DriftRun Fixed) → DriftRun Fixed
run_of (ok x) = x
run_of (err e) = record {
  feature_data = [];
  outcome = record { has_drift = false; drifting_features = none };
  ending = drift_ok_done;
}

abbrev run : DriftRun Fixed
run = run_of (run_drift_monitoring default_config with_key shifted).0

run_drifts : run.outcome.has_drift ≡ true
unfolding run_drift_monitoring load_current_distributions sampled read value attempts or_again
    run_drift_detection branch_on_drift chosen_task lookup detect_drift detect_among detect_one
    load_baseline parse_baseline baseline_key rca_task note compare compute_psi psi_severity
    psi_over psi_terms shares raise_last psi_term ◌+ℤ◌ ◌-ℤ◌ ◌*ℤ◌
run_drifts = refl

run_drift_monitoring_lem_example : All IsSample run.feature_data × IsEnding run.outcome run.ending
unfolding run_drift_monitoring load_current_distributions sampled read value attempts or_again
    run_drift_detection branch_on_drift chosen_task lookup detect_drift detect_among detect_one
    load_baseline parse_baseline baseline_key rca_task note compare compute_psi psi_severity
    psi_over psi_terms shares raise_last psi_term ◌+ℤ◌ ◌-ℤ◌ ◌*ℤ◌
run_drift_monitoring_lem_example =
    run_drift_monitoring_lem Fixed-OrderLaws Fixed-ArithLaws simple-TenacityLaws
      simple-SchedulerLaws default_config with_key run shifted
      (run_drift_monitoring {F = Fixed} default_config with_key shifted).1 refl
