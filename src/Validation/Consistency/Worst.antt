-- ===== src/Validation/Consistency/Worst.antt =====
-- The worst feature of a report is one with the greatest mean deviation.
use mathlib.Core.Path.{subst}
use feature_store.Common.{
  String, ◌≡◌, refl, sym, true, false, some, [], ◌∷◌, All, any, str_eq, arith, Bool-cases, inl, inr,
}
use feature_store.Common.Dict.{Dict}
use feature_store.Float.{Float, gt, IsNumber, OrderLaws}
use feature_store.OnlineStore.KeySchema.{feature_names}
use feature_store.Validation.Consistency.{
  feature_deviations, mean_deviation, per_feature, lead, worst_of, validate_consistency,
}

module _ {F : Type 0} ⦃f : Float F⦄ where
  lead_up : (best e : String × F) (d : Dict F) → gt e.1 best.1 ≡ true → lead best (e ∷ d) ≡ lead e d
  unfolding lead
  lead_up best e d h = rw h

  lead_stays :
      (best e : String × F) (d : Dict F) → gt e.1 best.1 ≡ false → lead best (e ∷ d) ≡ lead best d
  unfolding lead
  lead_stays best e d h = rw h

  -- Whatever holds of all entries holds of the leading one.
  All-lead {ℓ} :
      (P : String × F → Type ℓ) (best : String × F) (d : Dict F)
      → P best
      → All P d
      → P (lead best d)
  unfolding lead
  All-lead P best [] h _ = h
  All-lead P best (e ∷ d) h (p, rest) = elim (Bool-cases (gt e.1 best.1)) [
    | inl t ↦ rw t (All-lead P e d p rest)
    | inr t ↦ rw t (All-lead P best d h rest)
  ]

  -- The worst feature of a report is one of the store's features.
  pub worst_feature_named :
      (threshold : F) (offline online : Dict (Dict F))
      → (k : String) × ((validate_consistency threshold offline online).worst_feature ≡ some k)
        × (any (str_eq k) feature_names ≡ true)
  unfolding validate_consistency per_feature worst_of
  worst_feature_named threshold offline online =
      let row = λ (k : String). mean_deviation (feature_deviations online k offline) in
      let first : String × F = ("txn_count_5m", row "txn_count_5m") in
      let others = per_feature offline online (
        "avg_spend_1h" ∷ "session_activity_rate" ∷ "cart_abandon_ratio" ∷ "product_interaction_freq"
        ∷ "anomaly_score" ∷ []) in
      (
        (lead first others).0,
        refl,
        All-lead (λ e. any (str_eq e.0) feature_names ≡ true) first others refl
            (refl, (refl, (refl, (refl, (refl, tt))))),
      )

  module _ (laws : OrderLaws F) where
    open laws use {lt_irrefl, lt_trans, lt_cotrans}

    abbrev IsAtMost : F → String × F → Type 0
    IsAtMost x e = f.lt x e.1 ≡ false

    lead_greatest :
        (best : String × F) (d : Dict F)
        → IsNumber best.1
        → All (λ e. IsNumber e.1) d
        → IsAtMost (lead best d).1 best × All (IsAtMost (lead best d).1) d
    lead_greatest best [] _ _ = (unfold lead in lt_irrefl best.1, tt)
    lead_greatest best (e ∷ d) nb (ne, rest) =
        let Leads = λ (l : String × F). IsAtMost l.1 best × All (IsAtMost l.1) (e ∷ d) in
        elim (Bool-cases (gt e.1 best.1)) [
          | inl t ↦
              let (top, others) = lead_greatest e d ne rest in
              subst Leads (sym (lead_up best e d t))
                (ground (arith, lt_trans (lead e d).1 best.1 e.1), (top, others))
          | inr t ↦
              let (top, others) = lead_greatest best d nb rest in
              subst Leads (sym (lead_stays best e d t))
                (top, (ground (arith, lt_cotrans (lead best d).1 best.1 e.1), others))
        ]

    -- If no mean deviation is NaN, no feature's is above the `max_deviation` of the report, and
    -- the `worst_feature` is one whose mean deviation that is.
    pub worst_feature_greatest :
        (threshold : F) (offline online : Dict (Dict F))
        → All (λ k. IsNumber (mean_deviation (feature_deviations online k offline))) feature_names
        → let report = validate_consistency threshold offline online in
          All (λ e. f.lt report.max_deviation e.1 ≡ false) report.per_feature_deviation
          × ((k : String) × (report.worst_feature ≡ some k)
              × (report.max_deviation ≡ mean_deviation (feature_deviations online k offline)))
    unfolding validate_consistency per_feature worst_of
    worst_feature_greatest threshold offline online numbers =
        let row = λ (k : String). mean_deviation (feature_deviations online k offline) in
        let first : String × F = ("txn_count_5m", row "txn_count_5m") in
        let others : Dict F =
          ("avg_spend_1h", row "avg_spend_1h")
          ∷ ("session_activity_rate", row "session_activity_rate")
          ∷ ("cart_abandon_ratio", row "cart_abandon_ratio")
          ∷ ("product_interaction_freq", row "product_interaction_freq")
          ∷ ("anomaly_score", row "anomaly_score")
          ∷ [] in
        let (n, ns) = numbers in
        (
          lead_greatest first others n ns,
          (
            (lead first others).0,
            refl,
            All-lead (λ e. e.1 ≡ row e.0) first others refl
                (refl, (refl, (refl, (refl, (refl, tt))))),
          ),
        )
