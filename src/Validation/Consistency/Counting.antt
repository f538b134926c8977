-- ===== src/Validation/Consistency/Counting.antt =====
-- The counts of a report: which users are counted, and that the two counts make up the sample.
use feature_store.Common.{
  ℕ, ◌+◌, String, ◌≡◌, refl, ◌∙◌, Bool, false, ◌||◌, List, [], ◌∷◌, length, count, count-le-length,
  any, arith,
}
use feature_store.Common.Dict.{Dict}
use feature_store.Float.{Float, gt}
use feature_store.OnlineStore.KeySchema.{feature_names}
use feature_store.Validation.Consistency.{
  deviation, online_of, flag_user, count_inconsistent, validate_consistency,
}

module _ {F : Type 0} ⦃f : Float F⦄ (threshold : F) where
  -- A user is inconsistent if the deviation of some feature is above the threshold.
  abbrev pub is_inconsistent : Dict (Dict F) → String × Dict F → Bool
  is_inconsistent online (user_id, offline_vals) =
      any (λ k. gt (deviation offline_vals (online_of online user_id) k) threshold) feature_names

  flag_user-eq-any :
      (a b : Dict F) (features : List String) (flagged : Bool)
      → flag_user threshold a b features flagged
        ≡ (flagged || any (λ k. gt (deviation a b k) threshold) features)
  unfolding flag_user
  flag_user-eq-any a b [] flagged = ground arith
  flag_user-eq-any a b (k ∷ ks) flagged = flag_user-eq-any a b ks _ ∙ ground arith

  count_inconsistent-eq :
      (online users : Dict (Dict F)) (n : ℕ)
      → count_inconsistent threshold online users n ≡ n + count (is_inconsistent online) users
  unfolding count_inconsistent
  count_inconsistent-eq online [] n = omega arith
  count_inconsistent-eq online ((u, vals) ∷ users) n =
      count_inconsistent-eq online users _
      ∙ ground (arith, flag_user-eq-any vals (online_of online u) feature_names false)

  -- The report counts exactly the users of the offline store with a deviation above the threshold,
  -- and the two counts add up to the sample.
  pub validate_consistency_counts :
      (offline online : Dict (Dict F))
      → let report = validate_consistency threshold offline online in
        (report.inconsistent_users ≡ count (is_inconsistent online) offline)
        × (report.consistent_users + report.inconsistent_users ≡ report.sample_size)
        × (report.sample_size ≡ length offline)
  unfolding validate_consistency
  validate_consistency_counts offline online =
      let e = count_inconsistent-eq online offline 0 in
      (omega (arith, e), omega (arith, e, count-le-length (is_inconsistent online) offline), refl)
