-- ===== src/Drift/Detector.antt =====
-- drift_detection/drift_detector.py
pub mod Reports
pub mod Quiet
use feature_store.Common.{
  ℕ, ◌≡◌, String, Bool, true, false, ◌&&◌, not, Option, none, some, List, [], ◌∷◌, length, is_empty,
  any, if◌then◌else◌,
}
use feature_store.Common.Dict.{Dict, get_or}
use feature_store.Common.Exec.{Exec, Result, ok, err, pure, ◌>>=◌, ◌>>◌}
use feature_store.Float.{Float}
use feature_store.Numpy.{Numpy}
use feature_store.Redis.{Redis}
use feature_store.Tenacity.{Clock}
use feature_store.OnlineStore.KeySchema.{feature_names}
use feature_store.Validation.Psi.{Severity, warn, alert, compute_psi, psi_severity}
use feature_store.Drift.StatisticalTests.{
  KsTestResult, ZScoreResult, ks_test, z_score_test, kl_divergence,
}
use feature_store.Drift.BaselineManager.{Json, load_baseline}

pub record DriftConfig (F : Type 0) : Type 0 where
  pub psi_warn_threshold : F
  pub psi_alert_threshold : F
  pub ks_pvalue_threshold : F
  pub zscore_alert_threshold : F

abbrev pub default_config : {F : Type 0} ⦃f : Float F⦄ → DriftConfig F
default_config ⦃f⦄ = record {
  psi_warn_threshold = f.lit 1 1;
  psi_alert_threshold = f.lit 2 1;
  ks_pvalue_threshold = f.lit 5 2;
  zscore_alert_threshold = f.lit 30 1;
}

pub record FeatureDriftResult (F : Type 0) : Type 0 where
  pub feature_name : String
  pub psi_score : F
  pub ks_statistic : F
  pub ks_p_value : F
  pub z_score : F
  pub kl : F
  pub severity : Severity
  pub baseline_size : ℕ
  pub current_size : ℕ
  pub computed_at : F

pub record DriftReport (F : Type 0) : Type 0 where
  pub feature_results : List (FeatureDriftResult F)
  pub drifting_features : List String
  pub computed_at : F

abbrev pub is_alert : Severity → Bool
is_alert alert = true
is_alert _ = false

abbrev pub is_ok : Severity → Bool
is_ok Severity.ok = true
is_ok _ = false

module _ {F : Type 0} where
  -- `self.severity in ("warn", "alert")`
  abbrev pub is_drifting : FeatureDriftResult F → Bool
  is_drifting r = not (is_ok r.severity)

  abbrev pub has_critical_drift : DriftReport F → Bool
  has_critical_drift report = any (λ r. is_alert r.severity) report.feature_results

  -- `results.append(result)`, and `drifting.append(feature_name)` where it is drifting
  unfoldable pub note :
      FeatureDriftResult F
      → List (FeatureDriftResult F) × List String
      → List (FeatureDriftResult F) × List String
  note result (results, drifting) =
      (result ∷ results, (if is_drifting result then result.feature_name ∷ drifting else drifting))

-- A KS test that is significant raises "ok" to "warn".
abbrev pub escalate : Severity → Bool → Severity
escalate severity significant = if is_ok severity && significant then warn else severity

-- `if not baseline: baseline = current`
abbrev pub baseline_or : {F : Type 0} → Option (List F) → List F → List F
baseline_or none current = current
baseline_or (some xs) current = if is_empty xs then current else xs

module _ {F : Type 0} ⦃f : Float F⦄ ⦃n : Numpy F⦄ where
  -- the result for one feature
  unfoldable pub compare : DriftConfig F → String → List F → List F → F → FeatureDriftResult F
  compare cfg feature_name baseline current now =
      let psi = compute_psi baseline current 10 in
      let severity = psi_severity psi cfg.psi_warn_threshold cfg.psi_alert_threshold in
      let ks = ks_test baseline current cfg.ks_pvalue_threshold in
      let zs = z_score_test baseline current cfg.zscore_alert_threshold in
      let kl = kl_divergence baseline current 10 in
      record {
        feature_name = feature_name;
        psi_score = psi;
        ks_statistic = ks.statistic;
        ks_p_value = ks.p_value;
        z_score = zs.z_score;
        kl = f.round kl 6;
        severity = escalate severity ks.significant;
        baseline_size = length baseline;
        current_size = length current;
        computed_at = now;
      }

  module _ {W : Type 0} ⦃r : Redis W⦄ ⦃j : Json F⦄ ⦃c : Clock W F⦄ where
    -- the body of the loop, for a feature that has values
    unfoldable pub detect_one : DriftConfig F → String → List F → Exec W (FeatureDriftResult F)
    detect_one cfg feature_name current = load_baseline feature_name >>= λ baseline w.
        (ok (compare cfg feature_name (baseline_or baseline current) current (c.time w)), w)

    -- the results of the loop over the features
    unfoldable pub detect_among :
        DriftConfig F
        → Dict (List F)
        → List String
        → Exec W (List (FeatureDriftResult F) × List String)
    detect_among cfg current_data [] = pure ([], [])
    detect_among cfg current_data (feature_name ∷ names) =
        let rest = detect_among cfg current_data names in
        let current = get_or feature_name [] current_data in
        if is_empty current
        then rest
        else (do result ← detect_one cfg feature_name current; out ← rest; pure (note result out))

    unfoldable pub detect_drift : DriftConfig F → Dict (List F) → Exec W (DriftReport F)
    detect_drift cfg current_data = detect_among cfg current_data feature_names >>= λ out w.
        let (results, drifting) = out in
        (
          ok (record {
            feature_results = results;
            drifting_features = drifting;
            computed_at = c.time w;
          }),
          w,
        )
