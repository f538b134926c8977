-- ===== src/Drift/Detector/Quiet.antt =====
-- Data that is compared with itself.
use feature_store.Common.{
  ◌≡◌, sym, ◌∙◌, arith, String, true, false, Option, none, some, List, [], ◌∷◌, is_empty,
  Bool-cases, All, inl, inr, ◌⊎◌,
}
use feature_store.Common.Dict.{Dict, get_or}
use feature_store.Common.Exec.{ok, Exec-cases}
use feature_store.Float.{Float, nought, IsNumber, OrderLaws, ArithLaws}
use feature_store.Numpy.{Numpy, NumpyLaws}
use feature_store.Redis.{Redis, RedisLaws}
use feature_store.Tenacity.{Clock}
use feature_store.OnlineStore.KeySchema.{baseline_key, feature_names}
use feature_store.Validation.Psi.{psi_severity}
use feature_store.Validation.Psi.Laws.{compute_psi_self}
use feature_store.Drift.StatisticalTests.{ks_test}
use feature_store.Drift.BaselineManager.{
  Json, ReadsBack, load_baseline, parse_baseline, refresh_all_baselines,
}
use feature_store.Drift.BaselineManager.Laws.{
  load_baseline_lem, text-refresh_all_baselines, HasDistinctKeys,
}
use feature_store.Drift.Detector.{
  DriftConfig, FeatureDriftResult, DriftReport, is_drifting, baseline_or, compare, note, detect_one,
  detect_among, detect_drift,
}

-- Thresholds that "no change" is on the right side of: zero is below the PSI's, and the p-value
-- one is not below the KS test's.
abbrev pub IsSensible : {F : Type 0} ⦃f : Float F⦄ → DriftConfig F → Type 0
IsSensible ⦃f⦄ cfg =
    (f.lt nought cfg.psi_warn_threshold ≡ true) × (f.lt (f.lit 1 0) cfg.ks_pvalue_threshold ≡ false)

abbrev pub HasNumbers : {F : Type 0} ⦃f : Float F⦄ → List F → Type 0
HasNumbers {F} xs = All {A = F} (λ x. IsNumber x) xs

module _ {F : Type 0} ⦃f : Float F⦄ ⦃n : Numpy F⦄ where
  module _ (order : OrderLaws F) (arith_laws : ArithLaws F) (laws : NumpyLaws F) where
    -- A sample without NaN against itself is not drifting, for sensible thresholds.
    compare_self :
        (cfg : DriftConfig F) (k : String) (xs : List F) (t : F)
        → IsSensible cfg
        → HasNumbers xs
        → is_drifting (compare cfg k xs xs t) ≡ false
    unfolding compare psi_severity ks_test
    compare_self cfg k xs t (low, high) numbers =
        rw (compute_psi_self order arith_laws laws xs 10) (elim (Bool-cases (is_empty xs)) [
          | inl e ↦ ground (arith, low, high)
          | inr e ↦ ground (arith, low, high, laws.ks_2samp_self xs e numbers)
        ])

module _ {W F : Type 0} ⦃r : Redis W⦄ ⦃j : Json F⦄ (rlaws : RedisLaws W) where
  -- The server has no baseline for the feature, or the text of these values, which reads back.
  abbrev pub IsUnchanged : W → String → List F → Type 0
  IsUnchanged w k xs =
      (rlaws.text w (baseline_key k) ≡ none)
      ⊎ ((rlaws.text w (baseline_key k) ≡ some (j.dumps xs)) × ReadsBack xs)

  parse_unchanged :
      (k : String) (xs : List F) (w w' : W) (b : Option (List F))
      → IsUnchanged w k xs
      → parse_baseline (rlaws.text w (baseline_key k)) w ≡ (ok b, w')
      → (baseline_or b xs ≡ xs) × (w' ≡ w)
  unfolding parse_baseline
  parse_unchanged k xs w w' b u h = ground arith

  load_unchanged :
      (k : String) (xs : List F) (w w' : W) (b : Option (List F))
      → IsUnchanged w k xs
      → load_baseline k w ≡ (ok b, w')
      → (baseline_or b xs ≡ xs) × (w' ≡ w)
  unfolding load_baseline
  load_unchanged k xs w w' b u h = elim (Exec-cases (r.get (baseline_key k) w)) [
    | inr (x, v, s) ↦ absurd (ground arith)
    | inl (o, v, s) ↦ parse_unchanged k xs w w' b u (sym (load_baseline_lem rlaws k w v o s) ∙ h)
  ]

module _ {W F : Type 0} ⦃f : Float F⦄ ⦃n : Numpy F⦄ ⦃r : Redis W⦄ ⦃j : Json F⦄ ⦃c : Clock W F⦄
    (order : OrderLaws F) (arith_laws : ArithLaws F) (laws : NumpyLaws F)
    (rlaws : RedisLaws W) where
  detect_one_quiet :
      (cfg : DriftConfig F) (k : String) (xs : List F) (w w' : W) (res : FeatureDriftResult F)
      → IsSensible cfg
      → IsUnchanged rlaws w k xs
      → HasNumbers xs
      → detect_one cfg k xs w ≡ (ok res, w')
      → (is_drifting res ≡ false) × (w' ≡ w)
  unfolding detect_one
  detect_one_quiet cfg k xs w w' res sensible u numbers h =
      elim (Exec-cases (load_baseline {F = F} k w)) [
        | inr (x, v, s) ↦ absurd (ground arith)
        | inl (b, v, s) ↦ ground (
          arith,
          load_unchanged rlaws k xs w v b u s,
          compare_self order arith_laws laws cfg k xs (c.time v) sensible numbers,
        )
      ]

  detect_among_quiet :
      (cfg : DriftConfig F) (d : Dict (List F)) (names : List String) (w w' : W)
      (rs : List (FeatureDriftResult F)) (drifting : List String)
      → IsSensible cfg
      → ((k : String) → IsUnchanged rlaws w k (get_or k [] d))
      → ((k : String) → HasNumbers (get_or k [] d))
      → detect_among cfg d names w ≡ (ok (rs, drifting), w')
      → drifting ≡ []
  unfolding note detect_among
  detect_among_quiet cfg d [] w w' rs drifting sensible u numbers h = ground arith
  detect_among_quiet cfg d (k ∷ names) w w' rs drifting sensible u numbers h =
      elim (Bool-cases (is_empty (get_or k [] d))) [
        | inl e ↦ ground (arith, detect_among_quiet cfg d names w w' rs drifting sensible u numbers)
        | inr e ↦ elim (Exec-cases (detect_one cfg k (get_or k [] d) w)) [
          | inr (x, v, s) ↦ absurd (ground arith)
          | inl (res, v, s) ↦
              let (quiet, same) =
                detect_one_quiet cfg k (get_or k [] d) w v res sensible (u k) (numbers k) s in
              elim (Exec-cases (detect_among cfg d names w)) [
                | inr (x, z, t) ↦ absurd (ground arith)
                | inl ((rs', drifting'), z, t) ↦
                    ground
                      (arith, detect_among_quiet cfg d names w z rs' drifting' sensible u numbers t)
              ]
        ]
      ]

  -- With sensible thresholds, a report that is returned lists no drifting feature where the server
  -- has, for each feature, no baseline or the text of the feature's current values, which reads
  -- back, and no current value is NaN.
  pub detect_drift_unchanged :
      (cfg : DriftConfig F) (d : Dict (List F)) (w w' : W) (report : DriftReport F)
      → IsSensible cfg
      → ((k : String) → IsUnchanged rlaws w k (get_or k [] d))
      → ((k : String) → HasNumbers (get_or k [] d))
      → detect_drift cfg d w ≡ (ok report, w')
      → report.drifting_features ≡ []
  unfolding detect_drift
  detect_drift_unchanged cfg d w w' report sensible u numbers h =
      elim (Exec-cases (detect_among cfg d feature_names w)) [
        | inr (x, v, s) ↦ absurd (ground arith)
        | inl ((rs, drifting), v, s) ↦
            ground
              (arith, detect_among_quiet cfg d feature_names w v rs drifting sensible u numbers s)
      ]

  -- Data that has just been made the baseline does not drift: with sensible thresholds, a report
  -- that is returned on the dict that `refresh_all_baselines` has stored lists no drifting
  -- feature, if the server had no baseline for the features without values, no key stands twice in
  -- the dict, the texts of its values read back, and none of them is NaN.
  pub detect_drift-refresh_all_baselines :
      (cfg : DriftConfig F) (d : Dict (List F)) (w w₁ w₂ : W) (report : DriftReport F)
      → IsSensible cfg
      → HasDistinctKeys d
      → ((k : String) → is_empty (get_or k [] d) ≡ true → rlaws.text w (baseline_key k) ≡ none)
      → ((k : String) → is_empty (get_or k [] d) ≡ false → ReadsBack (get_or k [] d))
      → ((k : String) → HasNumbers (get_or k [] d))
      → refresh_all_baselines d w ≡ (ok tt, w₁)
      → detect_drift cfg d w₁ ≡ (ok report, w₂)
      → report.drifting_features ≡ []
  detect_drift-refresh_all_baselines cfg d w w₁ w₂ report sensible u no_text back numbers s =
      detect_drift_unchanged cfg d w₁ w₂ report sensible
        (λ k. elim (Bool-cases (is_empty (get_or k [] d))) [
          | inl e ↦ inl (ground (arith, text-refresh_all_baselines rlaws d k w w₁ u s, no_text k e))
          | inr e ↦ inr (ground (arith, text-refresh_all_baselines rlaws d k w w₁ u s, back k e))
        ])
        numbers
