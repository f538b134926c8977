-- ===== src/Streaming/Windows.antt =====
-- What an aggregation by user and window is an aggregate of: the events of the user whose time is
-- in the window, as often as they are there.
use feature_store.Common.{
  ℕ, ◌≤◌, ◌<◌, ◌≡◌, ◌∙◌, arith, String, Bool, true, false, ◌&&◌, Option, none, some, List, [], ◌∷◌,
  filter, count, any, length, is_empty, All, str_eq, ltb, leb, if◌then◌else◌, inl, inr, Bool-cases,
}
use feature_store.Spark.{Spark, SparkLaws}
use feature_store.Spark.Rows.{
  Window, Windowed, same_window, in_window, on_grid, SameRows, in_group, count-filter, count_ext,
  any-eq-count, SameRows-count, All-mono, length-eq-count,
}
use feature_store.Streaming.Events.{Event, minutes, windows_of}

module _ {F : Type 0} where
  -- whether an event of the user is in the window
  abbrev pub happened_in : String → Window → Event F → Bool
  happened_in u w e =
      str_eq e.user_id u && elim e.timestamp [ none ↦ false | some t ↦ in_window w t ]

  -- Spark's windows are those of the grid for times a day or more after the epoch.
  abbrev pub is_dated : Event F → Bool
  is_dated e = elim e.timestamp [ none ↦ true | some t ↦ leb (minutes 1440) t ]

  -- how many events of a type the user has in the window
  abbrev pub events_in : (Event F → Bool) → String → Window → List (Event F) → ℕ
  events_in p u w es = count (λ e. p e && happened_in u w e) es

module _ {F : Type 0} {s : Spark F} (l : SparkLaws F s) where
  any-dated :
      (d slide : ℕ) (w : Window) (ts : Option ℕ)
      → 0 < slide
      → d ≤ minutes 1440
      → (elim ts [ none ↦ true | some t ↦ leb (minutes 1440) t ]) ≡ true
      → any (same_window w) (elim ts [ none ↦ [] | some t ↦ s.window d slide t ])
        ≡ (on_grid d slide w && elim ts [ none ↦ false | some t ↦ in_window w t ])
  any-dated d slide w none h k late = ground arith
  any-dated d slide w (some t) h k late = l.window_lem d slide t w h (ground arith)

  in_group-windows_of :
      (d slide : ℕ) (u : String) (w : Window) (e : Event F)
      → 0 < slide
      → d ≤ minutes 1440
      → is_dated e ≡ true
      → in_group (λ x. x.user_id) (windows_of s d slide) u w e
        ≡ (on_grid d slide w && happened_in u w e)
  in_group-windows_of d slide u w e h k late =
      ground (arith, any-dated d slide w e.timestamp h k late)

  -- The events of a group, counted by any test.
  count-in_group :
      (d slide : ℕ) (u : String) (w : Window) (p : Event F → Bool) (es : List (Event F))
      → 0 < slide
      → d ≤ minutes 1440
      → All (λ e. is_dated e ≡ true) es
      → count (λ e. in_group (λ x. x.user_id) (windows_of s d slide) u w e && p e) es
        ≡ (if on_grid d slide w then events_in p u w es else 0)
  count-in_group d slide u w p [] h k late = ground arith
  count-in_group d slide u w p (e ∷ es) h k (late, lates) =
      ground (
        arith,
        in_group-windows_of d slide u w e h k late,
        count-in_group d slide u w p es h k lates,
      )

  -- What a row of an aggregation is: a window of the grid, and the aggregate of a list that has
  -- the user's events in that window, with `p`-many of every sort `p`.
  unfoldable pub IsAggregate :
      {B : Type 0} → ℕ → ℕ → (List (Event F) → B) → List (Event F) → Windowed B → Type 0
  IsAggregate d slide agg events r =
      (es : List (Event F)) × (r.value ≡ agg es)
      × (on_grid d slide r.window ≡ true)
      × (0 < length es)
      × ((p : Event F → Bool) → count p es ≡ events_in p r.user_id r.window events)

  module _ {B : Type 0} (d slide : ℕ) (agg : List (Event F) → B) (df : s.DataFrame (Event F))
      (positive : 0 < slide) (daily : d ≤ minutes 1440)
      (dated : All (λ e. is_dated e ≡ true) (l.rows df)) where
    -- the rows of a group
    in_this : Windowed B → Event F → Bool
    in_this r = in_group (λ x. x.user_id) (windows_of s d slide) r.user_id r.window

    -- A group that has an event has a window of the grid.
    grid_of_many :
        (r : Windowed B) (es : List (Event F))
        → is_empty es ≡ false
        → count (λ e. true) es ≡ (
            if on_grid d slide r.window
            then events_in (λ e. true) r.user_id r.window (l.rows df)
            else 0)
        → on_grid d slide r.window ≡ true
    grid_of_many r [] some_row counted = absurd (ground arith)
    grid_of_many r (e ∷ es) some_row counted = elim (Bool-cases (on_grid d slide r.window)) [
      | inl g ↦ g
      | inr g ↦ absurd (ground (arith, counted, g))
    ]

    group-IsAggregate :
        (r : Windowed B) (es : List (Event F))
        → SameRows es (filter (in_this r) (l.rows df))
        → is_empty es ≡ false
        → r.value ≡ agg es
        → IsAggregate d slide agg (l.rows df) r
    unfolding in_this IsAggregate
    group-IsAggregate r es same some_row value =
        let counted = λ (p : Event F → Bool).
          SameRows-count p same
          ∙ count-filter p (in_this r) (l.rows df)
          ∙ count-in_group d slide r.user_id r.window p (l.rows df) positive daily dated in
        let many = length-eq-count es in
        let grid = grid_of_many r es some_row (counted (λ e. true)) in
        (es, value, grid, ground arith, λ p. ground (arith, counted p, grid))

    pub group_by-IsAggregate :
        All
          (IsAggregate d slide agg (l.rows df))
          (l.rows (s.group_by (λ e. e.user_id) (windows_of s d slide) agg df))
    unfolding in_this
    group_by-IsAggregate =
        All-mono (λ r (es, same, some_row, value). group-IsAggregate r es same some_row value) _
          (l.group_rows (λ e. e.user_id) (windows_of s d slide) agg df)

    -- There is one row for each user and window of the grid with an event, and no other.
    pub group_by_once :
        (u : String) (w : Window)
        → count
            (λ r. str_eq r.user_id u && same_window w r.window)
            (l.rows (s.group_by (λ e. e.user_id) (windows_of s d slide) agg df))
          ≡ (if on_grid d slide w && ltb 0 (events_in (λ e. true) u w (l.rows df)) then 1 else 0)
    group_by_once u w = ground (
      arith,
      l.group_once (λ e. e.user_id) (windows_of s d slide) agg df u w,
      any-eq-count (in_group (λ x. x.user_id) (windows_of s d slide) u w) (l.rows df),
      count_ext (λ e. in_group (λ x. x.user_id) (windows_of s d slide) u w e && true)
          (in_group (λ x. x.user_id) (windows_of s d slide) u w) (l.rows df) (λ e. ground arith),
      count-in_group d slide u w (λ e. true) (l.rows df) positive daily dated,
    )
