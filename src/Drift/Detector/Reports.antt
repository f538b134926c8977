-- ===== src/Drift/Detector/Reports.antt =====
-- What a drift report lists.
use feature_store.Common.{
  ◌≡◌, ◌≢◌, refl, arith, String, true, false, not, List, [], ◌∷◌, map, filter, any, is_empty,
  Bool-cases, inl, inr,
}
use feature_store.Common.Dict.{Dict, get_or}
use feature_store.Common.Exec.{ok, Exec-cases}
use feature_store.Float.{Float}
use feature_store.Numpy.{Numpy}
use feature_store.Redis.{Redis}
use feature_store.Tenacity.{Clock}
use feature_store.OnlineStore.KeySchema.{feature_names}
use feature_store.Drift.BaselineManager.{Json, load_baseline}
use feature_store.Drift.Detector.{
  DriftConfig, FeatureDriftResult, DriftReport, is_alert, is_drifting, has_critical_drift,
  baseline_or, compare, note, detect_one, detect_among, detect_drift,
}

module _ {F : Type 0} where
  -- the names of the features that have values
  abbrev pub measured : Dict (List F) → List String → List String
  measured d = filter (λ k. not (is_empty (get_or k [] d)))

  -- the names of the results that are drifting
  abbrev pub drifting_names : List (FeatureDriftResult F) → List String
  drifting_names rs = map (λ r. r.feature_name) (filter is_drifting rs)

module _ {F : Type 0} where
  no_alert_of_quiet :
      (rs : List (FeatureDriftResult F))
      → drifting_names rs ≡ []
      → any (λ r. is_alert r.severity) rs ≡ false
  no_alert_of_quiet [] h = refl
  no_alert_of_quiet (r ∷ rs) h = ground (arith, no_alert_of_quiet rs)

module _ {F : Type 0} ⦃f : Float F⦄ ⦃n : Numpy F⦄ where
  compare_name :
      (cfg : DriftConfig F) (k : String) (xs ys : List F) (t : F)
      → (compare cfg k xs ys t).feature_name ≡ k
  unfolding compare
  compare_name cfg k xs ys t = refl

module _ {F W : Type 0} ⦃f : Float F⦄ ⦃n : Numpy F⦄ ⦃r : Redis W⦄ ⦃j : Json F⦄ ⦃c : Clock W F⦄ where
  detect_one_name :
      (cfg : DriftConfig F) (k : String) (xs : List F) (w w' : W) (res : FeatureDriftResult F)
      → detect_one cfg k xs w ≡ (ok res, w')
      → res.feature_name ≡ k
  unfolding detect_one
  detect_one_name cfg k xs w w' res h = elim (Exec-cases (load_baseline {F = F} k w)) [
    | inl (b, v, e) ↦ ground (arith, compare_name cfg k (baseline_or b xs) xs (c.time v))
    | inr (x, v, e) ↦ absurd (ground arith)
  ]

  detect_among_lem :
      (cfg : DriftConfig F) (d : Dict (List F)) (names : List String) (w w' : W)
      (rs : List (FeatureDriftResult F)) (drifting : List String)
      → detect_among cfg d names w ≡ (ok (rs, drifting), w')
      → (map (λ r. r.feature_name) rs ≡ measured d names) × (drifting ≡ drifting_names rs)
  unfolding note detect_among
  detect_among_lem cfg d [] w w' rs drifting h = ground arith
  detect_among_lem cfg d (k ∷ names) w w' rs drifting h =
      elim (Bool-cases (is_empty (get_or k [] d))) [
        | inl e ↦ ground (arith, detect_among_lem cfg d names w w' rs drifting)
        | inr e ↦ elim (Exec-cases (detect_one cfg k (get_or k [] d) w)) [
          | inr (x, v, s) ↦ absurd (ground arith)
          | inl (res, v, s) ↦ elim (Exec-cases (detect_among cfg d names v)) [
            | inr (x, u, t) ↦ absurd (ground arith)
            | inl ((rs', drifting'), u, t) ↦ ground (
              arith,
              detect_one_name cfg k (get_or k [] d) w v res s,
              detect_among_lem cfg d names v u rs' drifting' t,
            )
          ]
        ]
      ]

  -- A drift report that is returned has one result for each feature that has values, in the
  -- order of the feature names, and lists as drifting the features whose result is drifting, in
  -- that order.
  pub detect_drift_lem :
      (cfg : DriftConfig F) (d : Dict (List F)) (w w' : W) (report : DriftReport F)
      → detect_drift cfg d w ≡ (ok report, w')
      → (map (λ r. r.feature_name) report.feature_results ≡ measured d feature_names)
        × (report.drifting_features ≡ drifting_names report.feature_results)
  unfolding detect_drift
  detect_drift_lem cfg d w w' report h = elim (Exec-cases (detect_among cfg d feature_names w)) [
    | inr (x, v, s) ↦ absurd (ground arith)
    | inl ((rs, drifting), v, s) ↦
        ground (arith, detect_among_lem cfg d feature_names w v rs drifting s)
  ]

  -- A report that is returned with a critical drift lists a drifting feature.
  pub critical_drift_listed :
      (cfg : DriftConfig F) (d : Dict (List F)) (w w' : W) (report : DriftReport F)
      → detect_drift cfg d w ≡ (ok report, w')
      → has_critical_drift report ≡ true
      → report.drifting_features ≢ []
  critical_drift_listed cfg d w w' report h critical nothing =
      let (_, listed) = detect_drift_lem cfg d w w' report h in
      ground (arith, listed, no_alert_of_quiet report.feature_results)
