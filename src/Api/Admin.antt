-- ===== src/Api/Admin.antt =====
-- api/routers/admin.py, with the requests and replies of api/schemas.py
pub mod Laws
pub mod Answers
use feature_store.Common.{ℕ, String, Option, none, some, List, [], ◌∷◌, Bool, true, false}
use feature_store.Common.Exec.{Exec, Result, ok, err, value_error, lift, pure, ◌>>=◌, ◌>>◌}
use feature_store.Common.Dict.{Dict}
use feature_store.Float.{Float, nought}
use feature_store.Redis.{Redis, expire}
use feature_store.Tenacity.{Clock, Tenacity}
use feature_store.OnlineStore.KeySchema.{feature_key, feature_names}
use feature_store.Diagnostics.Schemas.{
  Value, Items, text, array, item, done, Format, DiagnosticsConfig, DriftReport, RcaDiagnosis,
}
use feature_store.Diagnostics.RcaEngine.{Messages, Engine, analyze}

pub record RefreshResponse : Type 0 where
  pub status : String
  pub user_id : String
  pub queued_features : List String

pub record RcaRequest (F : Type 0) : Type 0 where
  pub feature_name : String
  pub psi_score : F
  pub ks_statistic : F
  pub z_score : F
  pub severity : String

pub record RcaResponse (F : Type 0) : Type 0 where
  pub feature_name : String
  pub probable_cause : String
  pub cause_category : String
  pub confidence : F
  pub affected_features : List String
  pub remediation_steps : List String
  pub urgency : String
  pub estimated_impact : String
  pub model_used : String

-- `body.feature_names or FEATURE_FIELDS[:-1]`
abbrev pub queued : Option (List String) → List String
queued none = feature_names
queued (some []) = feature_names
queued (some (k ∷ ks)) = k ∷ ks

module _ {W : Type 0} ⦃r : Redis W⦄ where
  pub do_refresh : String → Exec W (Unit {0})
  do_refresh user_id = r.run (expire (feature_key user_id) 300)

  -- the reply, and the background task that runs when it has been sent
  pub refresh_feature : String → Option (List String) → RefreshResponse × Exec W (Unit {0})
  refresh_feature user_id names = (
    record { status = "refresh_queued"; user_id = user_id; queued_features = queued names },
    do_refresh user_id,
  )

module _ {F : Type 0} where
  -- pydantic's check of a text field and of a list of texts; its error is a ValueError
  pub as_text : Value F → Result String
  as_text (text s) = ok s
  as_text _ = err value_error

  pub as_texts : Items F → Result (List String)
  as_texts done = ok []
  as_texts (item (text s) rest) = elim (as_texts rest) [ ok ss ↦ ok (s ∷ ss) | err e ↦ err e ]
  as_texts _ = err value_error

  pub as_list : Value F → Result (List String)
  as_list (array items) = as_texts items
  as_list _ = err value_error

  pub rca_response : {W : Type 0} → RcaDiagnosis F → Exec W (RcaResponse F)
  rca_response d = do
    probable_cause ← lift (as_text d.probable_cause)
    cause_category ← lift (as_text d.cause_category)
    affected_features ← lift (as_list d.affected_features)
    remediation_steps ← lift (as_list d.remediation_steps)
    urgency ← lift (as_text d.urgency)
    estimated_impact ← lift (as_text d.estimated_impact)
    pure (record {
      feature_name = d.feature_name;
      probable_cause = probable_cause;
      cause_category = cause_category;
      confidence = d.confidence;
      affected_features = affected_features;
      remediation_steps = remediation_steps;
      urgency = urgency;
      estimated_impact = estimated_impact;
      model_used = d.model_used;
    })

module _ {F : Type 0} ⦃f : Float F⦄ where
  pub drift_report_of : RcaRequest F → F → DriftReport F
  drift_report_of body now = record {
    feature_name = body.feature_name;
    psi_score = body.psi_score;
    ks_statistic = body.ks_statistic;
    ks_p_value = nought;
    z_score = body.z_score;
    severity = body.severity;
    baseline_period = "last_7d";
    current_period = "last_1h";
    sample_size = 1000;
    kl_divergence = nought;
    computed_at = now;
  }

module _ {W F : Type 0} ⦃f : Float F⦄ ⦃p : Format F⦄ ⦃c : Clock W F⦄ ⦃m : Messages W F⦄
    ⦃t : Tenacity (Engine W)⦄ where
  pub run_rca : DiagnosticsConfig → RcaRequest F → Exec (Engine W) (RcaResponse F)
  run_rca cfg body e =
      let (diagnosis, e₁) = analyze cfg (drift_report_of body (c.time e.world)) none e in
      rca_response diagnosis e₁
