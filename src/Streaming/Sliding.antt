-- ===== src/Streaming/Sliding.antt =====
-- The hour that slides by five minutes: an event is in twelve of its windows, and the join of
-- `compute_all_features` takes them all.
use native.Mathlib.Nat.{div-add-mod', mul-mod_left, add-mul, mul-le-mul}
use feature_store.Common.{
  ℕ, zero, suc, ◌*◌, ◌/◌, ◌-◌, ◌≤◌, ◌<◌, ◌+◌, ◌≡◌, arith, String, Bool, true, false, ◌&&◌, Option,
  none, some, List, [], ◌∷◌, count, All, str_eq, ltb, leb, if◌then◌else◌, Bool-cases, inl, inr,
}
use feature_store.Float.{Float}
use feature_store.Spark.{Spark, SparkLaws}
use feature_store.Spark.Rows.{Window, Windowed, same_window, in_window, on_grid}
use feature_store.Streaming.Events.{Event, minutes, is_type, present}
use feature_store.Streaming.Features.{
  compute_avg_spend_1h, compute_session_activity_rate, compute_cart_abandon_ratio,
  compute_product_interaction_freq, compute_all_features,
}
use feature_store.Streaming.Windows.{is_dated, happened_in, events_in, group_by_once}
use feature_store.Streaming.Counts.{Dated, where_-Dated, events_in-where_, events_in_ext}
use feature_store.Streaming.FanOut.{times, row_of, compute_all_features_rows}

module _ {A : Type 0} where
  -- Two tests that exclude each other and imply a third.
  count-disjoint :
      (p q r : A → Bool) (xs : List A)
      → ((x : A) → (if p x then 1 else 0) + (if q x then 1 else 0) ≤ (if r x then 1 else 0))
      → count p xs + count q xs ≤ count r xs
  count-disjoint p q r [] h = omega arith
  count-disjoint p q r (x ∷ xs) h = omega (arith, h x, count-disjoint p q r xs h)

  count_mono :
      (p q : A → Bool) (xs : List A) → ((x : A) → p x ≡ true → q x ≡ true) → count p xs ≤ count q xs
  count_mono p q [] h = omega arith
  count_mono p q (x ∷ xs) h = ground (arith, h x, count_mono p q xs h)

-- the `j`-th window of the grid from the `b`-th on
abbrev nth_window : ℕ → ℕ → ℕ → Window
nth_window d m j = record { start = j * m; end = j * m + d }

-- A user with a row for each of `n` windows has `n` rows.
many_windows :
    {V : Type 0} (u : String) (d m b n : ℕ) (rs : List (Windowed V))
    → 0 < m
    → ((j : ℕ)
        → j < n
        → count (λ r. str_eq r.user_id u && same_window (nth_window d m (b + j)) r.window) rs ≡ 1)
    → n ≤ count (λ r. str_eq r.user_id u && ltb r.window.start ((b + n) * m)) rs
many_windows u d m b zero rs h each = omega arith
many_windows u d m b (suc n) rs h each =
    let before = many_windows u d m b n rs h (λ j k. each j (omega arith)) in
    let last = each n (omega arith) in
    let step =
      count-disjoint (λ r. str_eq r.user_id u && ltb r.window.start ((b + n) * m))
        (λ r. str_eq r.user_id u && same_window (nth_window d m (b + n)) r.window)
        (λ r. str_eq r.user_id u && ltb r.window.start ((b + suc n) * m)) rs
        (λ r. ground (arith, add-mul (b + n) 1 m)) in
    omega (arith, before, last, step)

late_time :
    (w : Window) (ts : Option ℕ)
    → (elim ts [ none ↦ true | some t ↦ leb (minutes 1440) t ]) ≡ true
    → (elim ts [ none ↦ false | some t ↦ in_window w t ]) ≡ true
    → w.end ≡ w.start + minutes 5
    → minutes 60 ≤ w.start
late_time w none d h e = absurd (ground arith)
late_time w (some t) d h e = ground arith

-- Dated events of a window: it starts late enough for an hour before it.
late_start :
    {F : Type 0} (p : Event F → Bool) (u : String) (w : Window) (es : List (Event F))
    → All (λ e. is_dated e ≡ true) es
    → w.end ≡ w.start + minutes 5
    → 0 < events_in p u w es
    → minutes 60 ≤ w.start
late_start p u w [] dated e h = absurd (ground arith)
late_start p u w (x ∷ es) (d, ds) e h = elim (Bool-cases (happened_in u w x)) [
  | inl y ↦ late_time w x.timestamp d (ground arith) e
  | inr n ↦ late_start p u w es ds e (ground arith)
]

-- The windows of an hour around a window of five minutes: those of the twelve starts up to its own.
wider :
    (w v : Window) (ts : Option ℕ)
    → leb v.start w.start ≡ true
    → leb w.end v.end ≡ true
    → (elim ts [ none ↦ false | some t ↦ in_window w t ]) ≡ true
    → (elim ts [ none ↦ false | some t ↦ in_window v t ]) ≡ true
wider w v none h k i = absurd (ground arith)
wider w v (some t) h k i = ground arith

events_in_wider :
    {F : Type 0} (p : Event F → Bool) (u : String) (w v : Window) (es : List (Event F))
    → leb v.start w.start ≡ true
    → leb w.end v.end ≡ true
    → events_in p u w es ≤ events_in p u v es
events_in_wider p u w v es h k =
    count_mono (λ e. p e && happened_in u w e) (λ e. p e && happened_in u v e) es
      (λ e i. ground (arith, wider w v e.timestamp h k))

le_mul : (n a b : ℕ) → n ≤ a → 1 ≤ b → n ≤ a * b
le_mul n a b h k = omega (arith, mul-le-mul h k)

module _ {F : Type 0} ⦃f : Float F⦄ {s : Spark F} (l : SparkLaws F s) where
  -- The purchases of a frame, in a window of an hour that holds one of five minutes.
  hour_row :
      (df : s.DataFrame (Event F)) (u : String) (w v : Window)
      → Dated l df
      → leb v.start w.start ≡ true
      → leb w.end v.end ≡ true
      → on_grid (minutes 60) (minutes 5) v ≡ true
      → 0 < events_in (is_type "purchase") u w (l.rows df)
      → count
          (λ r. str_eq r.user_id u && same_window v r.window)
          (l.rows (compute_avg_spend_1h s df))
        ≡ 1
  unfolding compute_avg_spend_1h
  hour_row df u w v dated h k grid bought =
      let sold = is_type {F = F} "purchase" in
      ground (
        arith,
        group_by_once l (minutes 60) (minutes 5)
            (λ es. s.avg (present (λ e. e.transaction_amount) es)) (s.where_ sold df) (omega arith)
            (omega arith) (where_-Dated l sold df dated) u v,
        events_in-where_ l (λ e. true) sold u v df,
        events_in_ext l (λ e. sold e && true) sold u v (l.rows df) (λ e. ground arith),
        events_in_wider sold u w v (l.rows df) h k,
      )

  -- A user who bought in a window of five minutes has a row of `compute_avg_spend_1h` for each of
  -- the twelve hours around it.
  avg_spend_rows :
      (df : s.DataFrame (Event F)) (u : String) (w : Window)
      → Dated l df
      → on_grid (minutes 5) (minutes 5) w ≡ true
      → 0 < events_in (is_type "purchase") u w (l.rows df)
      → 12 ≤ times l u (compute_avg_spend_1h s df)
  avg_spend_rows df u w dated grid bought =
      let q = w.start / minutes 5 in
      let rows = l.rows (compute_avg_spend_1h s df) in
      let late = late_start (is_type "purchase") u w (l.rows df) dated (ground arith) bought in
      let many = many_windows u (minutes 60) (minutes 5) (q - 11) 12 rows (omega arith) (λ j k.
        hour_row df u w (nth_window (minutes 60) (minutes 5) (q - 11 + j)) dated
          (ground (arith, div-add-mod' w.start (minutes 5)))
          (ground (arith, div-add-mod' w.start (minutes 5)))
          (ground (arith, mul-mod_left (q - 11 + j) (minutes 5))) bought) in
      let users =
        count_mono (λ r. str_eq r.user_id u && ltb r.window.start ((q - 11 + 12) * minutes 5))
          (λ r. str_eq r.user_id u) rows (λ r h. ground arith) in
      omega (arith, many, users)

  -- For events dated a day or more after the epoch: where a user bought anything in a window of
  -- five minutes, `compute_all_features` has twelve rows or more for that user and window, since
  -- the join on the user takes each of the twelve sliding hours around the purchase.
  pub compute_all_features_fan_out :
      (current : F) (df : s.DataFrame (Event F)) (u : String) (w : Window)
      → Dated l df
      → on_grid (minutes 5) (minutes 5) w ≡ true
      → 0 < events_in (is_type "purchase") u w (l.rows df)
      → 12 ≤ count (row_of u w) (l.rows (compute_all_features s current df))
  compute_all_features_fan_out current df u w dated grid bought =
      let rows = compute_all_features_rows l current df u w dated in
      let a = times l u (compute_avg_spend_1h s df) in
      let b = times l u (compute_session_activity_rate s df) in
      let c = times l u (compute_cart_abandon_ratio s df) in
      let d = times l u (compute_product_interaction_freq s df) in
      let hours =
        le_mul 12 (1 * a) b (omega (arith, avg_spend_rows df u w dated grid bought))
          (omega arith) in
      let carts = le_mul 12 (1 * a * b) c hours (omega arith) in
      ground (arith, rows, le_mul 12 (1 * a * b * c) d carts (omega arith))
