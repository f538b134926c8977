-- ===== src/Examples/Answers.antt =====
-- Examples with a language model that always submits one diagnosis by the tool.
use mathlib.Core.Path.{subst, sym}
use feature_store.Common.{◌≡◌, refl, true, false, some, [], ◌∷◌, ℕ, String}
use feature_store.Common.Dict.{Dict, lookup}
use feature_store.Common.Exec.{ok}
use feature_store.Float.Fixed.{Fixed, fixed_float, Fixed-OrderLaws}
use feature_store.Redis.Memory.{Memory, empty}
use feature_store.Tenacity.Simple.{simple_tenacity, simple-TenacityLaws}
use feature_store.Diagnostics.Schemas.{Value, text, integer, texts, text_items, DiagnosticsConfig}
use feature_store.Diagnostics.PromptTemplates.{rca_tool_definition, conforms}
use feature_store.Diagnostics.RcaEngine.{Messages, Engine, Response, tool_result}
use feature_store.Api.Admin.{RcaRequest, RcaResponse, run_rca}
use feature_store.Api.Admin.Answers.{IsWellFormed, run_rca_answers}
use feature_store.Examples.World.{memory_clock, plain_format}

abbrev submission : Dict (Value Fixed)
submission =
    ("probable_cause", text "The consumer lags.")
    ∷ ("cause_category", text "data_pipeline_delay")
    ∷ ("confidence", integer 1)
    ∷ ("affected_features", texts ("txn_count_5m" ∷ []))
    ∷ ("remediation_steps", texts ("Check the lag." ∷ []))
    ∷ ("urgency", text "critical")
    ∷ ("estimated_impact", text "Stale counts.")
    ∷ []

abbrev answer : Response Fixed
answer = record {
  content = record { type_of = "tool_use"; name = "submit_rca_diagnosis"; input = submission } ∷ [];
  input_tokens = 900;
  output_tokens = 80;
}

instance abbrev one_answer : Messages Memory Fixed
one_answer = record { create = λ model n message w. (ok answer, w) }

submission-conforms : conforms rca_tool_definition submission ≡ true
unfolding conforms lookup text_items
submission-conforms = refl

abbrev with_key : DiagnosticsConfig
with_key = record {
  anthropic_api_key = "key";
  anthropic_model = "claude-sonnet-4-5";
  rca_max_tokens = 1024;
}

abbrev request : RcaRequest Fixed
request = record {
  feature_name = "txn_count_5m";
  psi_score = fixed_float.lit 31 2;
  ks_statistic = fixed_float.lit 1 1;
  z_score = fixed_float.lit 4 0;
  severity = "alert";
}

abbrev engine : Engine Memory
engine = record { has_client = false; world = empty }

conforming :
    (model : String) (n : ℕ) (message : String) (w w' : Memory) (x : Response Fixed)
    (d : Dict (Value Fixed))
    → one_answer.create model n message w ≡ (ok x, w')
    → tool_result x.content ≡ some d
    → conforms rca_tool_definition d ≡ true
conforming model n message w w' x d h k =
    let same : answer ≡ x = cc h in
    let given : some submission ≡ some d =
      subst (λ r. tool_result r.content ≡ some d) (sym same) k in
    let input : submission ≡ d = cc given in
    subst (λ r. conforms rca_tool_definition r ≡ true) input submission-conforms

run_rca_answers_example :
    (x : RcaResponse Fixed) × (e' : Engine Memory) × (run_rca with_key request engine ≡ (ok x, e'))
    × IsWellFormed "txn_count_5m" x
run_rca_answers_example =
    run_rca_answers Fixed-OrderLaws simple-TenacityLaws with_key request engine conforming
