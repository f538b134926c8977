-- ===== src/Validation/Consistency/Values.antt =====
-- What the comparison makes of equal values and of NaN.
use mathlib.Core.Path.{subst}
use feature_store.Common.{
  max, String, ◌≡◌, refl, sym, ap, ◌∙◌, Bool, true, false, some, List, [], ◌∷◌, All, length, count,
  any, arith, Bool-cases, inl, inr,
}
use feature_store.Common.Dict.{Dict, lookup, get_or}
use feature_store.Float.{Float, nought, gt, IsFinite, IsNan, OrderLaws, ArithLaws}
use feature_store.Float.Literals.{epsilon_pos, of_nat_max_pos}
use feature_store.OnlineStore.KeySchema.{feature_names}
use feature_store.Validation.Consistency.{
  ConsistencyReport, relative_deviation, deviation, online_of, validate_consistency, is_healthy,
}
use feature_store.Validation.Consistency.Counting.{is_inconsistent, validate_consistency_counts}

count_none {ℓ} :
    {A : Type ℓ} (p : A → Bool) (xs : List A) → All (λ x. p x ≡ false) xs → count p xs ≡ 0
count_none p [] h = refl
count_none p (x ∷ xs) (h, rest) = ground (arith, count_none p xs rest)

any_none {ℓ κ} :
    {A : Type ℓ} (P : A → Type κ) (p : A → Bool) (xs : List A)
    → ((x : A) → P x → p x ≡ false)
    → All P xs
    → any p xs ≡ false
any_none P p [] step h = refl
any_none P p (x ∷ xs) step (h, rest) = ground (arith, step x h, any_none P p xs step rest)

All-map {ℓ κ μ} :
    {A : Type ℓ} (P : A → Type κ) (Q : A → Type μ) (xs : List A)
    → ((x : A) → P x → Q x)
    → All P xs
    → All Q xs
All-map P Q [] step _ = tt
All-map P Q (x ∷ xs) step (p, rest) = (step x p, All-map P Q xs step rest)

module _ {F : Type 0} ⦃f : Float F⦄ (order : OrderLaws F) (laws : ArithLaws F) (threshold : F) where
  relative_deviation_self : (x : F) → IsFinite x → relative_deviation x x ≡ nought
  unfolding relative_deviation
  relative_deviation_self x (n, z) =
      let d = f.add (f.magnitude x) (f.lit 1 6) in
      let above : f.lt nought d ≡ true =
        laws.add_pos _ _ (laws.magnitude_nonneg x) (laws.magnitude_number x n)
          (epsilon_pos order) in
      ap (λ t. f.div (f.magnitude t) d) z
      ∙ ap (λ t. f.div t d) (laws.magnitude_lit 0 0)
      ∙ laws.div_zero d above

  -- NaN on the online side makes the deviation NaN, and NaN is above no threshold.
  deviation_nan : (x y : F) → IsNan y → gt (relative_deviation x y) threshold ≡ false
  unfolding relative_deviation
  deviation_nan x y h =
      let bad =
        laws.div_nan _ (f.add (f.magnitude x) (f.lit 1 6))
          (laws.magnitude_nan _ (laws.sub_nan x y h)) in
      elim (Bool-cases (gt (relative_deviation x y) threshold)) [
        | inl t ↦ cc (order.lt_number_right _ _ t)
        | inr t ↦ t
      ]

  -- A report that counts no user is healthy, if the threshold is above zero.
  is_healthy_none :
      (offline online : Dict (Dict F))
      → f.lt nought threshold ≡ true
      → (validate_consistency threshold offline online).inconsistent_users ≡ 0
      → ((validate_consistency threshold offline online).inconsistency_rate ≡ nought)
        × (is_healthy threshold (validate_consistency threshold offline online) ≡ true)
  unfolding validate_consistency is_healthy
  is_healthy_none offline online pos_threshold h =
      let n = length offline in
      let rate : (validate_consistency threshold offline online).inconsistency_rate ≡ nought =
        ap (λ k. f.round (f.div (f.of_nat k) (f.of_nat (max n 1))) 6) h
        ∙ ap (λ t. f.round (f.div t (f.of_nat (max n 1))) 6) laws.of_nat_zero
        ∙ ap (λ t. f.round t 6) (laws.div_zero _ (of_nat_max_pos laws n))
        ∙ laws.round_zero 6 in
      (rate, rw rate (ground arith))

  -- A report in which no user is inconsistent counts none, has rate zero and is healthy.
  abbrev pub IsPerfect : ConsistencyReport F → Type 0
  IsPerfect report =
      (report.inconsistent_users ≡ 0)
      × (report.inconsistency_rate ≡ nought)
      × (is_healthy threshold report ≡ true)

  none_inconsistent :
      (offline online : Dict (Dict F))
      → f.lt nought threshold ≡ true
      → All (λ e. is_inconsistent threshold online e ≡ false) offline
      → IsPerfect (validate_consistency threshold offline online)
  none_inconsistent offline online pos_threshold h =
      let (counted, _, _) = validate_consistency_counts threshold offline online in
      let none : (validate_consistency threshold offline online).inconsistent_users ≡ 0 =
        counted ∙ count_none _ offline h in
      let (rate, healthy) = is_healthy_none offline online pos_threshold none in
      (none, rate, healthy)

  -- The entry stands in the dict under its key, and holds finite feature values.
  abbrev pub IsFiniteEntry : Dict (Dict F) → String × Dict F → Type 0
  IsFiniteEntry offline e =
      (lookup e.0 offline ≡ some e.1) × All (λ k. IsFinite (get_or k nought e.1)) feature_names

  -- The online store has NaN at every feature of the user.
  abbrev pub IsNanUser : Dict (Dict F) → String × Dict F → Type 0
  IsNanUser online e = All (λ k. IsNan (get_or k nought (online_of online e.0))) feature_names

  finite_entry :
      (offline : Dict (Dict F)) (e : String × Dict F)
      → f.lt nought threshold ≡ true
      → IsFiniteEntry offline e
      → is_inconsistent threshold offline e ≡ false
  unfolding deviation
  finite_entry offline e pos_threshold (own, finite) =
      let same : online_of offline e.0 ≡ e.1 = ground arith in
      subst (λ d. any (λ k. gt (deviation e.1 d k) threshold) feature_names ≡ false) (sym same)
        (any_none (λ k. IsFinite (get_or k nought e.1)) (λ k. gt (deviation e.1 e.1 k) threshold)
          feature_names
          (λ k fin. ground (
            arith,
            relative_deviation_self (get_or k nought e.1) fin,
            order.lt_trans threshold nought threshold,
            order.lt_irrefl threshold,
          ))
          finite)

  nan_user :
      (online : Dict (Dict F)) (e : String × Dict F)
      → IsNanUser online e
      → is_inconsistent threshold online e ≡ false
  unfolding deviation
  nan_user online e nan =
      any_none (λ k. IsNan (get_or k nought (online_of online e.0)))
        (λ k. gt (deviation e.1 (online_of online e.0) k) threshold) feature_names
        (λ k bad. deviation_nan (get_or k nought e.1) (get_or k nought (online_of online e.0)) bad)
        nan

  -- With a threshold above zero, an offline store in which every user stands once, with finite
  -- feature values, is consistent with itself: no user is counted, the rate is zero and the report
  -- is healthy.
  pub validate_consistency_self :
      (offline : Dict (Dict F))
      → f.lt nought threshold ≡ true
      → All (IsFiniteEntry offline) offline
      → IsPerfect (validate_consistency threshold offline offline)
  validate_consistency_self offline pos_threshold h =
      none_inconsistent offline offline pos_threshold (
        All-map (IsFiniteEntry offline) (λ e. is_inconsistent threshold offline e ≡ false) offline
          (λ e. finite_entry offline e pos_threshold) h)

  -- With a threshold above zero, an online store with NaN at every feature of the sampled users
  -- gets a report that counts no user, has rate zero and is healthy, whatever the offline store
  -- holds.
  pub nan_unnoticed :
      (offline online : Dict (Dict F))
      → f.lt nought threshold ≡ true
      → All (IsNanUser online) offline
      → IsPerfect (validate_consistency threshold offline online)
  nan_unnoticed offline online pos_threshold h = none_inconsistent offline online pos_threshold (
      All-map (IsNanUser online) (λ e. is_inconsistent threshold online e ≡ false) offline
        (nan_user online) h)
