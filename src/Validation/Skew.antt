-- ===== src/Validation/Skew.antt =====
-- validation/skew_detector.py
pub mod Levels
use feature_store.Common.{
  ℕ, String, Bool, true, false, Option, none, some, List, [], ◌∷◌, if◌then◌else◌,
}
use feature_store.Common.Exec.{Exec, Result, ok, err, pure, ◌>>=◌, ◌>>◌}
use feature_store.Float.{Float, gt}
use feature_store.Validation.Consistency.{ConsistencyReport}

-- the labels, by severity
pub data Level : Type 0 where
  no_skew low medium high critical : Level

module _ {F : Type 0} ⦃f : Float F⦄ where
  -- SKEW_SEVERITY_THRESHOLDS, in its order
  abbrev pub skew_severity_thresholds : List (Level × F)
  skew_severity_thresholds =
      (critical, f.lit 10 2) ∷ (high, f.lit 5 2) ∷ (medium, f.lit 2 2) ∷ (low, f.lit 0 1) ∷ []

  -- the loop of `classify_skew_severity`
  unfoldable pub first_above : F → List (Level × F) → Level
  first_above rate [] = no_skew
  first_above rate ((level, threshold) ∷ rest) =
      if gt rate threshold then level else first_above rate rest

  unfoldable pub classify_skew_severity : ConsistencyReport F → Level
  classify_skew_severity report = first_above report.inconsistency_rate skew_severity_thresholds

-- The alert, less its type and time, which are the same for every alert or come from the clock.
pub record Alert (F : Type 0) : Type 0 where
  pub severity : Level
  pub inconsistency_rate : F
  pub worst_feature : Option String
  pub max_deviation : F
  pub sample_size : ℕ

-- The two calls of the Kafka producer; the message is `json.dumps` of the alert.
pub record Producer (W F : Type 0) : Type 0 where
  pub produce : Alert F → Exec W (Unit {0})
  pub flush : Exec W (Unit {0})

abbrev pub alert_of : {F : Type 0} → Level → ConsistencyReport F → Alert F
alert_of severity report = record {
  severity = severity;
  inconsistency_rate = report.inconsistency_rate;
  worst_feature = report.worst_feature;
  max_deviation = report.max_deviation;
  sample_size = report.sample_size;
}

module _ {W F : Type 0} where
  abbrev pub send : Producer W F → Alert F → Exec W (Unit {0})
  send p alert = do p.produce alert; p.flush

  pub emit_skew_alert :
      ⦃f : Float F⦄ → ConsistencyReport F → Option (Producer W F) → Exec W (Unit {0})
  emit_skew_alert ⦃f⦄ report kafka_producer = elim (classify_skew_severity report) [
    | no_skew ↦ pure tt
    | severity ↦ elim kafka_producer [ none ↦ pure tt | some p ↦ send p (alert_of severity report) ]
  ]
