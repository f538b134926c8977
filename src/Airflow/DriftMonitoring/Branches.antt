-- ===== src/Airflow/DriftMonitoring/Branches.antt =====
-- What flows from task to task.
use feature_store.Common.{
  ℕ, zero, suc, ◌≤◌, String, ◌≡◌, ◌≢◌, refl, arith, true, false, some, List, [], ◌∷◌, map, take,
  length, is_empty, All, Bool-cases, inl, inr,
}
use feature_store.Common.Dict.{Dict}
use feature_store.Common.Exec.{ok, Exec-cases}
use feature_store.Float.{Float}
use feature_store.Numpy.{Numpy}
use feature_store.Redis.{Redis}
use feature_store.Tenacity.{Clock}
use feature_store.OnlineStore.KeySchema.{user_index_key, feature_names}
use feature_store.Drift.BaselineManager.{Json}
use feature_store.Drift.Detector.{DriftConfig, has_critical_drift, detect_drift}
use feature_store.Drift.Detector.Reports.{critical_drift_listed}
use feature_store.Airflow.DriftMonitoring.{
  sampled, collect, load_current_distributions, Outcome, MetricsTable, run_drift_detection, run_rca,
  branch_on_drift,
}

take-nonempty :
    {A : Type 0} (n : ℕ) (xs : List A) → is_empty xs ≡ false → is_empty (take (suc n) xs) ≡ false
take-nonempty n [] h = h
take-nonempty n (x ∷ xs) h = refl

length-take : {A : Type 0} (n : ℕ) (xs : List A) → length (take n xs) ≤ n
length-take zero xs = omega arith
length-take (suc n) [] = omega arith
length-take (suc n) (x ∷ xs) = omega (arith, length-take n xs)

nonempty : {A : Type 0} (xs : List A) → xs ≢ [] → (y : A) × (ys : List A) × (xs ≡ y ∷ ys)
nonempty [] h = absurd (h refl)
nonempty (x ∷ xs) h = (x, xs, refl)

module _ {F : Type 0} where
  -- One value at least and two hundred at most.
  abbrev pub IsSample : String × List F → Type 0
  IsSample (k, xs) = (is_empty xs ≡ false) × (length xs ≤ 200)

  sampled-IsSample : (d : Dict (List F)) → All IsSample (sampled d)
  unfolding sampled
  sampled-IsSample [] = tt
  sampled-IsSample ((k, xs) ∷ d) = elim (Bool-cases (is_empty xs)) [
    | inl e ↦ rw e (sampled-IsSample d)
    | inr e ↦ rw e ((take-nonempty 199 xs e, length-take 200 xs), sampled-IsSample d)
  ]

  module _ {W : Type 0} ⦃f : Float F⦄ ⦃r : Redis W⦄ where
    -- What the first task pushes, when it returns, has one value at least and two hundred at most
    -- for each of its features.
    pub load_current_distributions-IsSample :
        (w w' : W) (d : Dict (List F)) → load_current_distributions w ≡ (ok d, w') → All IsSample d
    unfolding load_current_distributions
    load_current_distributions-IsSample w w' d h =
        elim (Exec-cases (r.srandmember user_index_key 500 w)) [
          | inr (y, v, e) ↦ absurd (ground arith)
          | inl (us, v, e) ↦
              elim (Exec-cases (collect {F = F} us (map (λ k. (k, [])) feature_names) v)) [
                | inr (y, u, e') ↦ absurd (ground arith)
                | inl (all, u, e') ↦
                    let pushed : d ≡ sampled all = ground arith in rw pushed (sampled-IsSample all)
              ]
        ]

module _ {W F : Type 0} ⦃x : MetricsTable W F⦄ ⦃f : Float F⦄ ⦃n : Numpy F⦄ ⦃r : Redis W⦄
    ⦃j : Json F⦄ ⦃c : Clock W F⦄ where
  -- The branch goes to the analysis only with a feature to analyse: where it chooses that task,
  -- the detection pushed a list of drifting features that is not empty.
  pub rca_has_feature :
      (cfg : DriftConfig F) (d : Dict (List F)) (w w' : W) (outcome : Outcome)
      → run_drift_detection cfg d w ≡ (ok outcome, w')
      → branch_on_drift outcome ≡ run_rca
      → (k : String) × (ks : List String) × (outcome.drifting_features ≡ some (k ∷ ks))
  unfolding run_drift_detection branch_on_drift
  rca_has_feature cfg d w w' outcome h chosen = elim (Bool-cases (is_empty d)) [
    | inl e ↦ absurd (ground arith)
    | inr e ↦ elim (Exec-cases (detect_drift cfg d w)) [
      | inr (y, v, s) ↦ absurd (ground arith)
      | inl (report, v, s) ↦
          let critical : has_critical_drift report ≡ true = ground arith in
          let listed = critical_drift_listed cfg d w v report s critical in
          let (k, ks, e') = nonempty report.drifting_features listed in (k, ks, ground (arith, e'))
    ]
  ]
