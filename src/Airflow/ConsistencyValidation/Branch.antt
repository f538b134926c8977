-- ===== src/Airflow/ConsistencyValidation/Branch.antt =====
-- When the graph triggers an analysis.
use feature_store.Common.{◌≤◌, ◌≡◌, ◌↔◌, ◌⊎◌, inl, inr, refl, arith, String, some, List, [], ◌∷◌}
use feature_store.Float.{Float, nought, OrderLaws}
use feature_store.Float.Literals.{lit_pos}
use feature_store.Validation.Consistency.{ConsistencyReport, validate_consistency}
use feature_store.Validation.Skew.{classify_skew_severity, first_above}
use feature_store.Validation.Skew.Levels.{rank}
use feature_store.Airflow.ConsistencyValidation.{
  Random, Comparison, read_online, simulate_offline, compare_online, sample_and_compare,
  trigger_rca, consistency_ok, branch_on_consistency,
}
use feature_store.Airflow.DriftMonitoring.{MetricsTable}
use feature_store.Redis.{Redis}
use feature_store.OnlineStore.KeySchema.{user_index_key}
use feature_store.Common.Dict.{Dict}
use feature_store.Common.Exec.{ok, Exec-cases}

module _ {F : Type 0} ⦃f : Float F⦄ (order : OrderLaws F) where
  -- The branch triggers an analysis for the rate of a report exactly if the skew detector gives
  -- that report the severity high or critical.
  pub trigger_iff_high :
      (report : ConsistencyReport F)
      → (branch_on_consistency (some report.inconsistency_rate) ≡ trigger_rca)
        ↔ (3 ≤ rank (classify_skew_severity report))
  unfolding branch_on_consistency classify_skew_severity first_above
  trigger_iff_high report =
      let x = report.inconsistency_rate in
      let five = order.lt_lit 5 10 2 (omega arith) (omega arith) (omega arith) in
      ground (
        arith,
        five,
        order.lt_trans (f.lit 5 2) (f.lit 10 2) x,
        order.lt_trans nought (f.lit 5 2) x,
        order.lt_trans nought (f.lit 5 2) nought,
        order.lt_irrefl nought,
        order.lt_irrefl x,
        order.eq_not_lt x nought,
        lit_pos order 4 2 (omega arith) (omega arith),
      )

  -- A rate of zero triggers nothing.
  pub nothing_triggers :
      (rate : F) → rate ≡ nought → branch_on_consistency (some rate) ≡ consistency_ok
  unfolding branch_on_consistency
  nothing_triggers rate h = rw h (
      ground (
        arith,
        order.lt_irrefl nought,
        order.lt_trans nought (f.lit 5 2) nought,
        lit_pos order 4 2 (omega arith) (omega arith),
      ))

module _ {W F : Type 0} ⦃f : Float F⦄ ⦃r : Redis W⦄ ⦃x : Random W F⦄ ⦃m : MetricsTable W F⦄
    (order : OrderLaws F) where
  -- The rate that the comparison pushes is that of the validator on the features that it read and
  -- their perturbed copies, so the graph triggers an analysis exactly if the severity of that
  -- report is high or critical; without active users it does not.
  pub sample_and_compare_lem :
      (threshold : F) (users : List String) (w w₁ w₂ : W) (pushed : Comparison F)
      → r.srandmember user_index_key 200 w ≡ (ok users, w₁)
      → sample_and_compare threshold w ≡ (ok pushed, w₂)
      → ((users ≡ []) × (branch_on_consistency (some pushed.inconsistency_rate) ≡ consistency_ok))
        ⊎ ((online : Dict (Dict F)) × (v : W) × (read_online users [] w₁ ≡ (ok online, v))
            × ((branch_on_consistency (some pushed.inconsistency_rate) ≡ trigger_rca) ↔ (
                3
                ≤ rank (
                    classify_skew_severity
                      (validate_consistency threshold (simulate_offline online v).0 online)))))
  unfolding sample_and_compare compare_online
  sample_and_compare_lem threshold [] w w₁ w₂ pushed sampled h =
      inl (refl, nothing_triggers order pushed.inconsistency_rate (ground (arith, h, sampled)))
  sample_and_compare_lem threshold (u ∷ us) w w₁ w₂ pushed sampled h =
      elim (Exec-cases (read_online {F = F} (u ∷ us) [] w₁)) [
        | inr (y, v, e) ↦ absurd (ground arith)
        | inl (online, v, e) ↦
            let report = validate_consistency threshold (simulate_offline online v).0 online in
            let same : pushed.inconsistency_rate ≡ report.inconsistency_rate = ground arith in
            inr (online, v, e, rw same (trigger_iff_high order report))
      ]
