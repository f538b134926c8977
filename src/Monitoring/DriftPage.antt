-- ===== src/Monitoring/DriftPage.antt =====
-- monitoring/pages/03_drift_report.py: the figures of the current status, feature by feature.
use feature_store.Common.{
  ◌≡◌, ap, ◌∙◌, arith, String, true, Option, none, some, List, [], ◌∷◌, ◌++◌, is_empty,
  if◌then◌else◌,
}
use feature_store.Common.Dict.{Dict, lookup}
use feature_store.Common.Exec.{Exec, pure, ◌>>=◌}
use feature_store.Float.{Float, OrderLaws, ArithLaws, nought}
use feature_store.Numpy.{Numpy, NumpyLaws}
use feature_store.Redis.{Redis}
use feature_store.OnlineStore.KeySchema.{feature_key, user_index_key}
use feature_store.Validation.Psi.{Severity, compute_psi, psi_severity}
use feature_store.Validation.Psi.Laws.{compute_psi_self}
use feature_store.Drift.BaselineManager.{Json, load_baseline}

-- what is shown of a feature
pub record Status (F : Type 0) : Type 0 where
  pub feature : String
  pub psi : F
  pub severity : Severity

module _ {F : Type 0} ⦃f : Float F⦄ where
  -- the value of a feature in a hash, if it is there and is a float
  abbrev pub value_of : String → Dict String → List F
  value_of feature features = elim (lookup feature features) [
    | none ↦ []
    | some text ↦ elim (f.parse text) [ none ↦ [] | some x ↦ x ∷ [] ]
  ]

  -- `load_baseline(feature) or vals`
  abbrev pub baseline_or_current : Option (List F) → List F → List F
  baseline_or_current none vals = vals
  baseline_or_current (some xs) vals = if is_empty xs then vals else xs

  -- the PSI with ten bins, and the severity with the default thresholds
  pub feature_status : ⦃n : Numpy F⦄ → String → List F → Option (List F) → Status F
  feature_status ⦃n⦄ feature vals baseline =
      let psi = compute_psi (baseline_or_current baseline vals) vals 10 in
      record { feature = feature; psi = psi; severity = psi_severity psi (f.lit 1 1) (f.lit 2 1) }

  module _ {W : Type 0} ⦃r : Redis W⦄ where
    abbrev pub current_values : String → List String → Exec W (List F)
    current_values feature [] = pure []
    current_values feature (uid ∷ user_ids) = do
      features ← r.hgetall (feature_key uid)
      rest ← current_values feature user_ids
      pure (value_of feature features ++ rest)

    module _ ⦃n : Numpy F⦄ ⦃j : Json F⦄ where
      -- One feature: nothing is shown where no value was read.
      abbrev pub show_feature : String → Exec W (List (Status F))
      show_feature feature = do
        user_ids ← r.srandmember user_index_key 100
        vals ← current_values feature user_ids
        if is_empty vals
            then pure []
            else (load_baseline feature >>= λ baseline.
                pure (feature_status feature vals baseline ∷ []))

      abbrev pub drift_status : List String → Exec W (List (Status F))
      drift_status [] = pure []
      drift_status (feature ∷ features) = do
        shown ← show_feature feature
        rest ← drift_status features
        pure (shown ++ rest)

-- A feature with no baseline, or an empty one, is shown with PSI zero and the severity "ok",
-- whatever its current values are: they are compared with themselves.
pub feature_status_no_baseline :
    {F : Type 0} ⦃f : Float F⦄ ⦃n : Numpy F⦄
    → OrderLaws F
    → ArithLaws F
    → NumpyLaws F
    → (feature : String) (vals : List F) (baseline : Option (List F))
    → (elim baseline [ none ↦ true | some xs ↦ is_empty xs ]) ≡ true
    → feature_status feature vals baseline
      ≡ record { feature = feature; psi = nought; severity = Severity.ok }
unfolding feature_status psi_severity
feature_status_no_baseline ⦃f⦄ order arith_laws laws feature vals baseline absent =
    let same : baseline_or_current baseline vals ≡ vals = ground arith in
    let zero =
      ap (λ b. compute_psi b vals 10) same ∙ compute_psi_self order arith_laws laws vals 10 in
    let below =
      ap (λ z. f.lt z (f.lit 1 1)) (order.lit_shift 0 0 (omega arith))
      ∙ order.lt_lit 0 1 1 (omega arith) (omega arith) (omega arith) in
    ap
      (λ psi. record {
        feature = feature;
        psi = psi;
        severity = psi_severity psi (f.lit 1 1) (f.lit 2 1);
      })
      zero
    ∙ ap (λ t. record { feature = feature; psi = nought; severity = t }) (ground (arith, below))
