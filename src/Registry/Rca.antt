-- ===== src/Registry/Rca.antt =====
-- registry/registry_service.py: `record_rca`, with its table as an interface. The column `id` is
-- the database's.
use feature_store.Common.{ℕ, String, List}
use feature_store.Common.Exec.{Exec, pure, ◌>>◌}
use feature_store.Tenacity.{Clock}

pub record RcaResultCreate (F : Type 0) : Type 0 where
  pub feature_name : String
  pub probable_cause : String
  pub cause_category : String
  pub confidence : F
  pub urgency : String
  pub remediation_steps : List String
  pub estimated_impact : String
  pub model_used : String
  pub tokens_used : ℕ

pub record RcaResult (F : Type 0) : Type 0 where
  pub feature_name : String
  pub probable_cause : String
  pub cause_category : String
  pub confidence : F
  pub urgency : String
  -- a JSON list, as a text
  pub remediation_steps : String
  pub estimated_impact : String
  pub model_used : String
  pub tokens_used : ℕ
  pub computed_at : F

pub record RcaTable (W F : Type 0) : Type 0 where
  pub add : RcaResult F → Exec W (Unit {0})
  pub commit : Exec W (Unit {0})
  pub refresh : RcaResult F → Exec W (Unit {0})
  -- `json.dumps` of a list of texts
  pub dumps : List String → String

module _ {W F : Type 0} ⦃c : Clock W F⦄ (t : RcaTable W F) where
  abbrev pub rca_row : RcaResultCreate F → F → RcaResult F
  rca_row rca now = record {
    feature_name = rca.feature_name;
    probable_cause = rca.probable_cause;
    cause_category = rca.cause_category;
    confidence = rca.confidence;
    urgency = rca.urgency;
    remediation_steps = t.dumps rca.remediation_steps;
    estimated_impact = rca.estimated_impact;
    model_used = rca.model_used;
    tokens_used = rca.tokens_used;
    computed_at = now;
  }

  abbrev pub record_rca : RcaResultCreate F → Exec W (RcaResult F)
  record_rca rca w =
      let row = rca_row rca (c.time w) in (t.add row >> (t.commit >> (t.refresh row >> pure row))) w
