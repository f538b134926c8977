-- ===== src/Streaming/FanOut.antt =====
-- How many rows the joins of `compute_all_features` make: they join on the user alone.
use feature_store.Common.{
  ℕ, ◌*◌, ◌≡◌, ap, ◌∙◌, arith, max, String, Bool, true, ◌&&◌, Option, some, List, [], ◌∷◌, map,
  filter, count, length, str_eq, eq_iff, ltb, ◌==◌, if◌then◌else◌, length-filter, Bool-cases, inl,
  inr,
}
use feature_store.Float.{Float}
use feature_store.Spark.{Spark, SparkLaws}
use feature_store.Spark.Rows.{
  Window, Windowed, same_window, on_grid, SameRows-count, with_matches, join_rows, count-append,
  count-map, count_ext,
}
use feature_store.Streaming.Events.{Event, minutes, is_type}
use feature_store.Streaming.Features.{
  FeatureRow, drop_window, to_row, join_features, compute_txn_count_5m, compute_avg_spend_1h,
  compute_session_activity_rate, compute_cart_abandon_ratio, compute_product_interaction_freq,
  compute_all_features,
}
use feature_store.Streaming.Counts.{Dated, compute_txn_count_5m_lem}
use feature_store.Streaming.Windows.{events_in}

module _ {A B : Type 0} where
  -- a test of the left part of a joined row
  abbrev on_left : (A → Bool) → A × Option B → Bool
  on_left p r = p r.0

  count-constant :
      (a : A) (p : A → Bool) (ys : List B)
      → count (on_left p) (map (λ y. (a, some y)) ys) ≡ (if p a then length ys else 0)
  count-constant a p [] = ground arith
  count-constant a p (y ∷ ys) = ground (arith, count-constant a p ys)

  count-with_matches :
      (a : A) (p : A → Bool) (bs : List B)
      → count (on_left p) (with_matches a bs) ≡ (if p a then max 1 (length bs) else 0)
  count-with_matches a p [] = ground arith
  count-with_matches a p (b ∷ bs) = ground (arith, count-constant a p (b ∷ bs))

  -- Rows of one user that pass a test, joined: each once for every match, or once without.
  count-join_rows :
      (ka : A → String) (kb : B → String) (p : A → Bool) (u : String) (xs : List A) (bs : List B)
      → ((a : A) → p a ≡ true → ka a ≡ u)
      → count (on_left p) (join_rows ka kb xs bs)
        ≡ count p xs * max 1 (count (λ b. str_eq (kb b) u) bs)
  unfolding join_rows
  count-join_rows ka kb p u [] bs h = ground arith
  count-join_rows ka kb p u (a ∷ xs) bs h =
      let n = max 1 (count (λ b. str_eq (kb b) u) bs) in
      let split =
        count-append (on_left p) (with_matches a (filter (λ b. str_eq (kb b) (ka a)) bs))
          (join_rows ka kb xs bs) in
      let rest = count-join_rows ka kb p u xs bs h in
      let first = count-with_matches a p (filter (λ b. str_eq (kb b) (ka a)) bs) in
      elim (Bool-cases (p a)) [
        | inl e ↦ ground (
          arith,
          e,
          split,
          rest,
          first,
          length-filter (λ b. str_eq (kb b) (ka a)) bs,
          ap (λ v. count (λ b. str_eq (kb b) v) bs) (h a e),
        )
        | inr e ↦ ground (arith, e, split, rest, first)
      ]

-- a row of the result, for a user and a window
abbrev pub row_of : {F : Type 0} → String → Window → FeatureRow F → Bool
row_of u w r = str_eq r.user_id u && r.window_start == w.start && r.window_end == w.end

module _ {F : Type 0} {s : Spark F} (l : SparkLaws F s) where
  -- How often a left join repeats the rows of a user: once for every row of the user in the other
  -- frame, and once where there is none.
  abbrev pub times : {V : Type 0} → String → s.DataFrame (Windowed V) → ℕ
  times u e = max 1 (count (λ r. str_eq r.user_id u) (l.rows e))

  count-left_join :
      {A V : Type 0} (ka : A → String) (p : A → Bool) (u : String) (d : s.DataFrame A)
      (e : s.DataFrame (Windowed V))
      → ((a : A) → p a ≡ true → ka a ≡ u)
      → count (on_left p) (l.rows (s.left_join ka (λ t. t.0) d (s.select drop_window e)))
        ≡ count p (l.rows d) * times u e
  count-left_join ka p u d e h =
      SameRows-count (on_left p) (l.join_lem ka (λ t. t.0) d (s.select drop_window e))
      ∙ count-join_rows ka (λ t. t.0) p u (l.rows d) (l.rows (s.select drop_window e)) h
      ∙ ap (λ n. count p (l.rows d) * max 1 n)
          (SameRows-count (λ t. str_eq t.0 u) (l.select_lem drop_window e)
            ∙ count-map (λ t. str_eq t.0 u) drop_window (l.rows e))

module _ {F : Type 0} ⦃f : Float F⦄ {s : Spark F} (l : SparkLaws F s) where
  abbrev of_base : String → Window → Windowed F → Bool
  of_base u w r = str_eq r.user_id u && same_window w r.window

  count-join_features :
      (u : String) (w : Window) (base : s.DataFrame (Windowed F))
      (avg_spend : s.DataFrame (Windowed (Option F)))
      (session_rate cart_abandon product_freq : s.DataFrame (Windowed F))
      → count
          (on_left (on_left (on_left (on_left (of_base u w)))))
          (l.rows (join_features s base avg_spend session_rate cart_abandon product_freq))
        ≡ count (of_base u w) (l.rows base)
          * times l u avg_spend
          * times l u session_rate
          * times l u cart_abandon
          * times l u product_freq
  unfolding join_features
  count-join_features u w base avg_spend session_rate cart_abandon product_freq =
      let p = of_base u w in
      let of_user = λ (r : Windowed F) (h : p r ≡ true). (eq_iff r.user_id u).0 (ground arith) in
      count-left_join l _ (on_left (on_left (on_left p))) u _ product_freq
        (λ t h. of_user t.0.0.0 h)
      ∙ ap (λ n. n * times l u product_freq)
          (count-left_join l _ (on_left (on_left p)) u _ cart_abandon (λ t h. of_user t.0.0 h)
            ∙ ap (λ n. n * times l u cart_abandon)
                (count-left_join l _ (on_left p) u _ session_rate (λ t h. of_user t.0 h)
                  ∙ ap (λ n. n * times l u session_rate)
                      (count-left_join l _ p u base avg_spend of_user)))

  -- For events dated a day or more after the epoch: `compute_all_features` has no row for a user
  -- and a window of five minutes without a purchase, and otherwise, whatever the windows are, as
  -- many as the product of the user's rows in the other four aggregates, none counting as one.
  pub compute_all_features_rows :
      (current : F) (df : s.DataFrame (Event F)) (u : String) (w : Window)
      → Dated l df
      → count (row_of u w) (l.rows (compute_all_features s current df))
        ≡ (if on_grid (minutes 5) (minutes 5) w
              && ltb 0 (events_in (is_type "purchase") u w (l.rows df))
            then 1
            else 0)
          * times l u (compute_avg_spend_1h s df)
          * times l u (compute_session_activity_rate s df)
          * times l u (compute_cart_abandon_ratio s df)
          * times l u (compute_product_interaction_freq s df)
  unfolding compute_all_features
  compute_all_features_rows current df u w dated =
      let base = compute_txn_count_5m s df in
      let frames =
        join_features s base (compute_avg_spend_1h s df) (compute_session_activity_rate s df)
          (compute_cart_abandon_ratio s df) (compute_product_interaction_freq s df) in
      SameRows-count (row_of u w) (l.select_lem (to_row current) frames)
      ∙ count-map (row_of u w) (to_row current) (l.rows frames)
      ∙ count_ext _ (on_left (on_left (on_left (on_left (of_base u w))))) (l.rows frames)
          (λ t. ground arith)
      ∙ count-join_features u w base _ _ _ _
      ∙ ap
          (λ n.
            n
            * times l u (compute_avg_spend_1h s df)
            * times l u (compute_session_activity_rate s df)
            * times l u (compute_cart_abandon_ratio s df)
            * times l u (compute_product_interaction_freq s df))
          ((compute_txn_count_5m_lem l df dated).1 u w)
