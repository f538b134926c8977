-- ===== src/Diagnostics/Schemas.antt =====
-- diagnostics/schemas.py and diagnostics/config.py, JSON values, and the formatting of numbers
-- and times, which the standard library does.
use feature_store.Common.{ℕ, String, Bool, List, [], ◌∷◌}

mutual
  pub data Value (F : Type 0) : Type 0 where
    null : Value F
    boolean : Bool → Value F
    integer : ℕ → Value F
    number : F → Value F
    text : String → Value F
    array : Items F → Value F
    object : Items F → Value F

  -- the items of an array, or the members of an object, each with its key
  pub data Items (F : Type 0) : Type 0 where
    done : Items F
    item : Value F → Items F → Items F
    member : String → Value F → Items F → Items F

module _ {F : Type 0} where
  unfoldable pub text_items : List String → Items F
  text_items [] = done
  text_items (s ∷ ss) = item (text s) (text_items ss)

  abbrev pub texts : List String → Value F
  texts ss = array (text_items ss)

pub record Format (F : Type 0) : Type 0 where
  -- `f"{x:.3f}"` for the digits 3
  pub fixed : ℕ → F → String
  -- `time.strftime("%Y-%m-%dT%H:%M:%SZ", time.gmtime(t))`
  pub iso_time : F → String
  -- `json.dumps(value, indent=2)`
  pub dumps : Value F → String

pub record DiagnosticsConfig : Type 0 where
  pub anthropic_api_key : String
  pub anthropic_model : String
  pub rca_max_tokens : ℕ

pub record DriftReport (F : Type 0) : Type 0 where
  pub feature_name : String
  pub psi_score : F
  pub ks_statistic : F
  pub ks_p_value : F
  pub z_score : F
  pub severity : String
  pub baseline_period : String
  pub current_period : String
  pub sample_size : ℕ
  pub kl_divergence : F
  pub computed_at : F

-- The text fields and the lists hold what the model answered, whose types are not checked here.
pub record RcaDiagnosis (F : Type 0) : Type 0 where
  pub feature_name : String
  pub probable_cause : Value F
  pub cause_category : Value F
  pub confidence : F
  pub affected_features : Value F
  pub remediation_steps : Value F
  pub urgency : Value F
  pub estimated_impact : Value F
  pub model_used : String
  pub tokens_used : ℕ
  pub computed_at : F
  pub fallback_used : Bool
