-- ===== src/Streaming/Rates.antt =====
-- What the rate of sessions and the ratio of the carts come to, event by event.
use feature_store.Common.{
  ℕ, zero, suc, ◌≤◌, ◌≡◌, refl, ap, ◌∙◌, arith, String, Bool, true, false, ◌||◌, Option, none, some,
  List, [], ◌∷◌, map, count, length, All, ltb, if◌then◌else◌,
}
use feature_store.Float.{Float, OrderLaws, ArithLaws, nought, gt, fmax}
use feature_store.Spark.{Spark, SparkLaws}
use feature_store.Spark.Rows.{
  Window, Windowed, SameRows-All, flip_rows, All-map, sum, length-eq-count,
}
use feature_store.Streaming.Events.{Event, minutes, is_type, present}
use feature_store.Streaming.Features.{
  with_value, one_if, session_rate, abandon_ratio, compute_session_activity_rate,
  compute_cart_abandon_ratio,
}
use feature_store.Streaming.Windows.{events_in, IsAggregate, group_by-IsAggregate}
use feature_store.Streaming.Counts.{Dated, where_-Dated, events_in-where_, events_in_ext}

sum-one_if :
    {A : Type 0} (p : A → Bool) (xs : List A) → sum (map (λ x. one_if (p x)) xs) ≡ count p xs
sum-one_if p [] = refl
sum-one_if p (x ∷ xs) = omega (arith, sum-one_if p xs)

length-present :
    {A B : Type 0} (g : A → Option B) (xs : List A)
    → length (present g xs) ≡ count (λ x. elim (g x) [ none ↦ false | some _ ↦ true ]) xs
length-present g [] = refl
length-present g (x ∷ xs) = ground (arith, length-present g xs)

abbrev pub has_session : {F : Type 0} → Event F → Bool
has_session e = elim e.session_id [ none ↦ false | some _ ↦ true ]

module _ {F : Type 0} ⦃f : Float F⦄ {s : Spark F} (l : SparkLaws F s) where
  -- The rate of a window: its events by the sessions among them.
  abbrev pub IsRate : List (Event F) → Windowed F → Type 0
  IsRate events r =
      (sessions : ℕ) × (sessions ≤ events_in has_session r.user_id r.window events)
      × (ltb 0 sessions ≡ ltb 0 (events_in has_session r.user_id r.window events))
      × (r.value ≡ (
          if ltb 0 sessions
          then f.div (f.of_nat (events_in (λ e. true) r.user_id r.window events))
              (f.of_nat sessions)
          else nought))

  gt-of_nat : OrderLaws F → ArithLaws F → (n : ℕ) → gt (f.of_nat n) nought ≡ ltb 0 n
  gt-of_nat o a zero = ground (arith, a.of_nat_zero, o.lt_irrefl nought)
  gt-of_nat o a (suc n) = ground (arith, a.of_nat_pos n)

  distinct_pos : (xs : List String) → ltb 0 (s.count_distinct xs) ≡ ltb 0 (length xs)
  distinct_pos [] = ground (arith, l.count_distinct_nil)
  distinct_pos (x ∷ xs) = ground (arith, l.count_distinct_pos x xs)

  session_rate-of_nat :
      OrderLaws F
      → ArithLaws F
      → (n k : ℕ)
      → session_rate (record { first = f.of_nat n; second = f.of_nat k })
        ≡ (if ltb 0 k then f.div (f.of_nat n) (f.of_nat k) else nought)
  unfolding session_rate
  session_rate-of_nat o a n k = ground (arith, gt-of_nat o a k)

  -- For events dated a day or more after the epoch: every row of `compute_session_activity_rate`
  -- has the events of its user and window, divided by a number of sessions that is at most the
  -- number of those events that have a session, and zero only if that is; the rate is then zero.
  pub compute_session_activity_rate_lem :
      OrderLaws F
      → ArithLaws F
      → (df : s.DataFrame (Event F)) → Dated l df
      → All (IsRate (l.rows df)) (l.rows (compute_session_activity_rate s df))
  unfolding compute_session_activity_rate IsAggregate session_rate
  compute_session_activity_rate_lem o a df dated =
      SameRows-All _ (flip_rows (l.select_lem (with_value session_rate) _)) (
        All-map _ _ _
          (λ r (es, value, grid, many, tests).
            let ids = present (λ e. e.session_id) es in
            let n = s.count_distinct ids in
            let with_id = length-present (λ e. e.session_id) es ∙ tests has_session in
            let total = l.count_all_lem es ∙ length-eq-count es ∙ tests (λ e. true) in
            (
              n,
              ground (arith, l.count_distinct_le ids, with_id),
              ground (arith, distinct_pos ids, with_id),
              ap session_rate value
                  ∙ session_rate-of_nat o a (s.count_all es) n
                  ∙ ap (λ m. if ltb 0 n then f.div (f.of_nat m) (f.of_nat n) else nought) total,
            ))
          (group_by-IsAggregate l (minutes 5) (minutes 5) _ df (omega arith) (omega arith) dated))

  abbrev pub share_left : ℕ → ℕ → F
  share_left n k =
      if ltb 0 n then fmax (f.div (f.sub (f.of_nat n) (f.of_nat k)) (f.of_nat n)) nought else nought

  -- What a cart ratio is made of, in one window.
  abbrev pub IsRatio : List (Event F) → Windowed F → Type 0
  IsRatio events r =
      let adds = events_in (is_type "add_to_cart") r.user_id r.window events in
      let bought = events_in (is_type "purchase") r.user_id r.window events in
      (r.value ≡ share_left adds bought) × (f.lt r.value nought ≡ false)

  abandon_ratio-of_nat :
      OrderLaws F
      → ArithLaws F
      → (n k : ℕ)
      → (abandon_ratio (record { first = f.of_nat n; second = f.of_nat k }) ≡ share_left n k)
        × (f.lt (abandon_ratio (record { first = f.of_nat n; second = f.of_nat k })) nought ≡ false)
  unfolding abandon_ratio
  abandon_ratio-of_nat o a n k =
      (ground (arith, gt-of_nat o a n), ground (arith, gt-of_nat o a n, o.lt_irrefl nought))

  -- The events of one type among those of the cart.
  cart_events :
      (t : String) (df : s.DataFrame (Event F)) (u : String) (w : Window)
      → ((e : Event F)
          → is_type t e ≡ true
          → (is_type "add_to_cart" e || is_type "purchase" e) ≡ true)
      → events_in
          (is_type t)
          u
          w
          (l.rows (s.where_ (λ e. is_type "add_to_cart" e || is_type "purchase" e) df))
        ≡ events_in (is_type t) u w (l.rows df)
  cart_events t df u w h =
      events_in-where_ l (is_type t) (λ e. is_type "add_to_cart" e || is_type "purchase" e) u w df
      ∙ events_in_ext l _ (is_type t) u w (l.rows df) (λ e. ground (arith, h e))

  -- For events dated a day or more after the epoch: every row of `compute_cart_abandon_ratio` has
  -- the share of the additions to the cart, by its user in its window, that the number of purchases
  -- there leaves, in whatever order they came, or zero; and no ratio is below zero.
  pub compute_cart_abandon_ratio_lem :
      OrderLaws F
      → ArithLaws F
      → (df : s.DataFrame (Event F)) → Dated l df
      → All (IsRatio (l.rows df)) (l.rows (compute_cart_abandon_ratio s df))
  unfolding compute_cart_abandon_ratio IsAggregate
  compute_cart_abandon_ratio_lem o a df dated =
      let in_cart = λ (e : Event F). is_type "add_to_cart" e || is_type "purchase" e in
      SameRows-All _ (flip_rows (l.select_lem (with_value abandon_ratio) _)) (
        All-map _ _ _
          (λ r (es, value, grid, many, tests).
            let n_of = λ (t : String). s.sum_of (map (λ e. one_if (is_type t e)) es) in
            let total = λ (t : String).
              l.sum_of_lem (map (λ e. one_if (is_type t e)) es)
              ∙ sum-one_if (is_type t) es
              ∙ tests (is_type t) in
            let adds =
              total "add_to_cart"
              ∙ cart_events "add_to_cart" df r.user_id r.window (λ e h. ground arith) in
            let bought =
              total "purchase"
              ∙ cart_events "purchase" df r.user_id r.window (λ e h. ground arith) in
            let (equal, sign) = abandon_ratio-of_nat o a (n_of "add_to_cart") (n_of "purchase") in
            (
              ap abandon_ratio value
                  ∙ equal
                  ∙ ap (λ n. share_left n (n_of "purchase")) adds
                  ∙ ap
                      (share_left
                        (events_in (is_type "add_to_cart") r.user_id r.window (l.rows df)))
                      bought,
              ap (λ c. f.lt (abandon_ratio c) nought) value ∙ sign,
            ))
          (group_by-IsAggregate l (minutes 30) (minutes 30) _ (s.where_ in_cart df) (omega arith)
            (omega arith) (where_-Dated l in_cart df dated)))
