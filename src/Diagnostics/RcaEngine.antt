-- ===== src/Diagnostics/RcaEngine.antt =====
-- diagnostics/rca_engine.py. The client of the package anthropic is an interface.
pub mod Analysis
pub mod Submitted
use feature_store.Common.{
  ℕ, zero, suc, ◌+◌, String, ◌⋅◌, Bool, true, false, ◌&&◌, Option, none, some, List, [], ◌∷◌,
  is_empty, str_eq, if◌then◌else◌,
}
use feature_store.Common.Dict.{Dict, lookup}
use feature_store.Common.Exec.{
  Exec, Exn, Result, ok, err, value_error, key_error, api_connection_error, other_error, raise,
  lift, pure, ◌>>=◌, ◌>>◌,
}
use feature_store.Float.{Float, nought, gt}
use feature_store.Tenacity.{Clock, Tenacity}
use feature_store.Diagnostics.Schemas.{
  Value, null, boolean, integer, number, text, array, object, texts, Format, DiagnosticsConfig,
  DriftReport, RcaDiagnosis,
}
use feature_store.Diagnostics.ContextBuilder.{build_rca_context}
use feature_store.Diagnostics.Rules.{rule_based_fallback}

-- what the code reads of a response
pub record Block (F : Type 0) : Type 0 where
  pub type_of : String
  pub name : String
  pub input : Dict (Value F)

pub record Response (F : Type 0) : Type 0 where
  pub content : List (Block F)
  pub input_tokens : ℕ
  pub output_tokens : ℕ

-- `client.messages.create` with the model, the number of tokens and the user's message; the
-- system prompt, the tools and the choice of the tool are the same in every call
pub record Messages (W F : Type 0) : Type 0 where
  pub create : String → ℕ → String → Exec W (Response F)

-- `RCAEngine`: whether `_client` is set, with the world around it
pub record Engine (W : Type 0) : Type 0 where
  pub has_client : Bool
  pub world : W

abbrev pub is_connection_error : Exn → Bool
is_connection_error api_connection_error = true
is_connection_error _ = false

module _ {W : Type 0} where
  pub get_client : DiagnosticsConfig → Exec (Engine W) (Unit {0})
  get_client cfg e =
      if e.has_client
      then (ok tt, e)
      else if str_eq cfg.anthropic_api_key ""
      then (err value_error, e)
      else (ok tt, record e { has_client = true })

  -- a call of the client, from inside the engine
  abbrev pub outside : {A : Type 0} → Exec W A → Exec (Engine W) A
  outside m e = let (res, w) = m e.world in (res, record e { world = w })

module _ {F : Type 0} where
  -- the input of the first block that is a use of the tool
  abbrev pub tool_result : List (Block F) → Option (Dict (Value F))
  tool_result [] = none
  tool_result (b ∷ bs) =
      if str_eq b.type_of "tool_use" && str_eq b.name "submit_rca_diagnosis"
      then some b.input
      else tool_result bs

  -- `tool_result[key]`
  abbrev pub field : String → Dict (Value F) → Result (Value F)
  field key d = elim (lookup key d) [ none ↦ err key_error | some v ↦ ok v ]

module _ {F : Type 0} ⦃f : Float F⦄ where
  -- `float(v)`; a TypeError is an `other_error`
  abbrev pub to_float : Value F → Result F
  to_float (boolean b) = ok (f.of_nat (if b then 1 else 0))
  to_float (integer n) = ok (f.of_nat n)
  to_float (number x) = ok x
  to_float (text s) = elim (f.parse s) [ none ↦ err value_error | some x ↦ ok x ]
  to_float _ = err other_error

  -- the diagnosis from the tool's input, with the fields read in the order of the code
  unfoldable pub read_diagnosis :
      {W : Type 0} ⦃c : Clock W F⦄
      → DiagnosticsConfig
      → DriftReport F
      → ℕ
      → Dict (Value F)
      → Exec (Engine W) (RcaDiagnosis F)
  read_diagnosis ⦃c = c⦄ cfg report tokens_used d = do
    probable_cause ← lift (field "probable_cause" d)
    cause_category ← lift (field "cause_category" d)
    raw ← lift (field "confidence" d)
    confidence ← lift (to_float raw)
    affected_features ← lift (field "affected_features" d)
    remediation_steps ← lift (field "remediation_steps" d)
    urgency ← lift (field "urgency" d)
    estimated_impact ← lift (field "estimated_impact" d)
    λ e. (
      ok (record {
        feature_name = report.feature_name;
        probable_cause = probable_cause;
        cause_category = cause_category;
        confidence = confidence;
        affected_features = affected_features;
        remediation_steps = remediation_steps;
        urgency = urgency;
        estimated_impact = estimated_impact;
        model_used = cfg.anthropic_model;
        tokens_used = tokens_used;
        computed_at = c.time e.world;
        fallback_used = false;
      }),
      e,
    )

-- the user's message
abbrev pub prompt :
    {F : Type 0} ⦃f : Float F⦄ ⦃p : Format F⦄ → DriftReport F → Option (Dict (Value F)) → String
prompt report feature_metadata =
    "Analyze this feature drift report and diagnose the root cause:\n\n"
    ⋅ build_rca_context report feature_metadata

module _ {W F : Type 0} ⦃f : Float F⦄ ⦃p : Format F⦄ ⦃c : Clock W F⦄ ⦃m : Messages W F⦄ where
  -- what is made of a response
  pub diagnosis_of :
      DiagnosticsConfig → DriftReport F → Response F → Exec (Engine W) (RcaDiagnosis F)
  diagnosis_of cfg report response = elim (tool_result response.content) [
    | none ↦ raise value_error
    | some d ↦
        if is_empty d
        then raise value_error
        else read_diagnosis cfg report (response.input_tokens + response.output_tokens) d
  ]

  -- one attempt of `_analyze_with_llm`
  pub ask_llm :
      DiagnosticsConfig → DriftReport F → Option (Dict (Value F)) → Exec (Engine W) (RcaDiagnosis F)
  ask_llm cfg report feature_metadata = do
    get_client cfg
    response ←
        outside (m.create cfg.anthropic_model cfg.rca_max_tokens (prompt report feature_metadata))
    diagnosis_of cfg report response

  -- `except Exception`: every failure ends in the fallback
  pub or_fallback : DriftReport F → Result (RcaDiagnosis F) × Engine W → RcaDiagnosis F × Engine W
  or_fallback report (ok diagnosis, e) = (diagnosis, e)
  or_fallback report (err _, e) = (rule_based_fallback report e.world, e)

  module _ ⦃t : Tenacity (Engine W)⦄ where
    pub analyze_with_llm :
        DiagnosticsConfig
        → DriftReport F
        → Option (Dict (Value F))
        → Exec (Engine W) (RcaDiagnosis F)
    analyze_with_llm cfg report feature_metadata =
        t.retry 3 is_connection_error false (ask_llm cfg report feature_metadata)

    pub analyze :
        DiagnosticsConfig
        → DriftReport F
        → Option (Dict (Value F))
        → Engine W
        → RcaDiagnosis F × Engine W
    analyze cfg report feature_metadata e =
        or_fallback report (analyze_with_llm cfg report feature_metadata e)
