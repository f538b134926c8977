-- ===== src/Airflow/ConsistencyValidation/Graph/Runs.antt =====
-- When a run of the consistency graph triggers an analysis, and of which feature.
use mathlib.Core.Path.{subst}
use feature_store.Common.{
  ◌≤◌, ◌<◌, ◌≡◌, ◌⊎◌, inl, inr, refl, arith, eq_iff, str_eq, String, true, some, List, [], ◌∷◌, any,
  ltb, Bool-cases, if◌then◌else◌,
}
use feature_store.Common.Dict.{Dict}
use feature_store.Common.Exec.{ok, pure, Exec-cases}
use feature_store.Float.{Float, OrderLaws}
use feature_store.Redis.{Redis}
use feature_store.OnlineStore.KeySchema.{feature_names, user_index_key}
use feature_store.Validation.Consistency.{ConsistencyReport, validate_consistency}
use feature_store.Validation.Consistency.Worst.{worst_feature_named}
use feature_store.Validation.Skew.{classify_skew_severity}
use feature_store.Validation.Skew.Levels.{rank}
use feature_store.Airflow.Dag.{Scheduler, SchedulerLaws, task, task-returned}
use feature_store.Airflow.DriftMonitoring.{MetricsTable}
use feature_store.Airflow.ConsistencyValidation.{
  Random, Comparison, read_online, simulate_offline, compare_online, sample_and_compare, Choice,
  trigger_rca, consistency_ok, branch_on_consistency,
}
use feature_store.Airflow.ConsistencyValidation.Branch.{trigger_iff_high, nothing_triggers}
use feature_store.Airflow.ConsistencyValidation.Graph.{
  Ending, consistency_ok_done, rca_triggered, ConsistencyRun, retries, chosen_task,
  run_consistency_validation,
}

-- No feature of the store has the empty name.
shown_name :
    (k : String) → any (str_eq k) feature_names ≡ true → (if str_eq k "" then "none" else k) ≡ k
shown_name k named = elim (Bool-cases (str_eq k "")) [
  | inl b ↦
      let blank : k ≡ "" = ground (arith, eq_iff k "") in
      absurd (ground (arith, subst (λ z. any (str_eq z) feature_names ≡ true) blank named))
  | inr b ↦ ground arith
]

Choice-cases : (c : Choice) → (c ≡ trigger_rca) ⊎ (c ≡ consistency_ok)
Choice-cases trigger_rca = inl refl
Choice-cases consistency_ok = inr refl

module _ {F : Type 0} ⦃f : Float F⦄ where
  -- How a run with this report ends: below the severity high it triggers nothing, and otherwise
  -- it names the report's worst feature, one of the store's.
  pub EndsAs : ConsistencyReport F → Ending → Type 0
  EndsAs report ending =
      ((rank (classify_skew_severity report) < 3) × (ending ≡ consistency_ok_done))
      ⊎ ((3 ≤ rank (classify_skew_severity report))
          × ((k : String) × (report.worst_feature ≡ some k)
              × (any (str_eq k) feature_names ≡ true)
              × (ending ≡ rca_triggered (some k))))

module _ {W F : Type 0} ⦃f : Float F⦄ ⦃r : Redis W⦄ ⦃x : Random W F⦄ ⦃m : MetricsTable W F⦄
    ⦃s : Scheduler W⦄ (order : OrderLaws F) (scheduled : SchedulerLaws W) where
  -- The report of a comparison, and the task that the branch chooses for it.
  ends_as :
      (threshold : F) (online : Dict (Dict F)) (v w w' : W) (ending : Ending)
      → let pushed = (compare_online threshold online v).0 in
        chosen_task pushed (branch_on_consistency (some pushed.inconsistency_rate)) w
          ≡ (ok ending, w')
        → EndsAs (validate_consistency threshold (simulate_offline online v).0 online) ending
  unfolding compare_online EndsAs chosen_task
  ends_as threshold online v w w' ending h =
      let offline = (simulate_offline online v).0 in
      let report = validate_consistency threshold offline online in
      let high = trigger_iff_high order report in
      let (k, worst, named) = worst_feature_named threshold offline online in
      elim (Choice-cases (branch_on_consistency (some report.inconsistency_rate))) [
        | inr fine ↦ elim (Bool-cases (ltb (rank (classify_skew_severity report)) 3)) [
          | inl b ↦ inl (ground arith, ground arith)
          | inr b ↦ absurd (ground (arith, high.1 (ground arith)))
        ]
        | inl chosen ↦
            let printed =
              scheduled.run_returns retries (pure (rca_triggered (some k))) (s.queue w) (s.queue w)
                (rca_triggered (some k)) refl in
            let shown = shown_name k named in
            let pushed : (compare_online threshold online v).0.worst_feature ≡ some k =
              ground (arith, worst, shown) in
            inr (high.0 chosen, (k, worst, named, ground (arith, pushed, printed)))
      ]

  sampled_ends :
      (threshold : F) (pushed : Comparison F) (v v' w w' : W) (ending : Ending)
      → sample_and_compare threshold v ≡ (ok pushed, v')
      → chosen_task pushed (branch_on_consistency (some pushed.inconsistency_rate)) w
        ≡ (ok ending, w')
      → (u u₁ : W) × (users : List String) × (r.srandmember user_index_key 200 u ≡ (ok users, u₁))
        × (((users ≡ []) × (ending ≡ consistency_ok_done))
            ⊎ ((online : Dict (Dict F)) × (u₂ : W) × (read_online users [] u₁ ≡ (ok online, u₂))
                × EndsAs
                    (validate_consistency threshold (simulate_offline online u₂).0 online)
                    ending))
  unfolding sample_and_compare chosen_task
  sampled_ends threshold pushed v v' w w' ending returned ended =
      elim (Exec-cases (r.srandmember user_index_key 200 v)) [
        | inr (y, u, e) ↦ absurd (ground arith)
        | inl ([], u, e) ↦
            let fine = nothing_triggers order pushed.inconsistency_rate (ground arith) in
            (v, u, [], e, inl (refl, ground (arith, fine)))
        | inl (a ∷ us, u, e) ↦ elim (Exec-cases (read_online {F = F} (a ∷ us) [] u)) [
          | inr (y, z, e') ↦ absurd (ground arith)
          | inl (online, z, e') ↦
              let Ended = λ (c : Comparison F).
                chosen_task c (branch_on_consistency (some c.inconsistency_rate)) w
                ≡ (ok ending, w') in
              let same : pushed ≡ (compare_online threshold online z).0 = ground arith in
              (
                v,
                u,
                a ∷ us,
                e,
                inr (
                  online,
                  z,
                  e',
                  ends_as threshold online z w w' ending (subst Ended same ended),
                ),
              )
        ]
      ]

  -- A run of the graph that succeeds sampled active users. Without any it triggers nothing. With
  -- some, it compared what it read of them with the perturbed copies, and it triggers an analysis
  -- exactly if the severity of that report is high or critical, naming the report's worst
  -- feature, which is one of the store's.
  pub run_consistency_validation_lem :
      (threshold : F) (run : ConsistencyRun F) (w w' : W)
      → run_consistency_validation threshold w ≡ (ok run, w')
      → (v v₁ : W) × (users : List String) × (r.srandmember user_index_key 200 v ≡ (ok users, v₁))
        × (((users ≡ []) × (run.ending ≡ consistency_ok_done))
            ⊎ ((online : Dict (Dict F)) × (v₂ : W) × (read_online users [] v₁ ≡ (ok online, v₂))
                × EndsAs
                    (validate_consistency threshold (simulate_offline online v₂).0 online)
                    run.ending))
  unfolding run_consistency_validation
  run_consistency_validation_lem threshold run w w' h =
      elim (Exec-cases (task retries (sample_and_compare {F = F} threshold) w)) [
        | inr (y, u, e) ↦ absurd (ground arith)
        | inl (pushed, w₁, compared) ↦
            let choice = branch_on_consistency (some pushed.inconsistency_rate) in
            let w₂ = s.queue w₁ in
            let branched = scheduled.run_returns retries (pure choice) w₂ w₂ choice refl in
            elim (Exec-cases (chosen_task pushed choice w₂)) [
              | inr (y, u, e) ↦ absurd (ground (arith, branched))
              | inl (ending, w₃, ended) ↦
                  let (v, returned) = task-returned scheduled retries _ w w₁ pushed compared in
                  let same : run ≡ record { pushed = pushed; ending = ending } =
                    ground (arith, branched) in
                  rw same (sampled_ends threshold pushed v w₁ w₂ w₃ ending returned ended)
            ]
      ]
