-- ===== src/Streaming/Counts.antt =====
-- What the aggregates of streaming/feature_definitions.py come to, event by event.
use feature_store.Common.{
  ℕ, ◌≤◌, ◌<◌, ◌≡◌, ap, ◌∙◌, arith, String, Bool, true, ◌&&◌, List, count, All, str_eq, ltb,
  if◌then◌else◌,
}
use feature_store.Float.{Float}
use feature_store.Spark.{Spark, SparkLaws}
use feature_store.Spark.Rows.{
  Window, Windowed, same_window, on_grid, SameRows-count, SameRows-All, flip_rows, All-filter,
  All-mono, count-filter, count_ext, length-eq-count,
}
use feature_store.Streaming.Events.{Event, minutes, is_type, windows_of}
use feature_store.Streaming.Features.{compute_txn_count_5m}
use feature_store.Streaming.Windows.{
  is_dated, happened_in, events_in, IsAggregate, group_by-IsAggregate, group_by_once,
}

module _ {F : Type 0} {s : Spark F} (l : SparkLaws F s) where
  abbrev pub Dated : s.DataFrame (Event F) → Type 0
  Dated df = All (λ e. is_dated e ≡ true) (l.rows df)

  pub where_-Dated :
      (p : Event F → Bool) (df : s.DataFrame (Event F)) → Dated df → Dated (s.where_ p df)
  where_-Dated p df dated =
      SameRows-All _ (flip_rows (l.where_lem p df)) (All-filter _ p (l.rows df) dated)

  pub events_in-where_ :
      (p q : Event F → Bool) (u : String) (w : Window) (df : s.DataFrame (Event F))
      → events_in p u w (l.rows (s.where_ q df)) ≡ events_in (λ e. q e && p e) u w (l.rows df)
  events_in-where_ p q u w df =
      SameRows-count (λ e. p e && happened_in u w e) (l.where_lem q df)
      ∙ count-filter (λ e. p e && happened_in u w e) q (l.rows df)
      ∙ count_ext _ (λ e. (q e && p e) && happened_in u w e) (l.rows df) (λ e. ground arith)

  -- the same events, for tests that agree
  pub events_in_ext :
      (p q : Event F → Bool) (u : String) (w : Window) (es : List (Event F))
      → ((e : Event F) → p e ≡ q e)
      → events_in p u w es ≡ events_in q u w es
  events_in_ext p q u w es h =
      count_ext (λ e. p e && happened_in u w e) (λ e. q e && happened_in u w e) es
        (λ e. ground (arith, h e))

module _ {F : Type 0} ⦃f : Float F⦄ {s : Spark F} (l : SparkLaws F s) where
  -- A count of the events of one type, window by window.
  abbrev pub IsCount : String → List (Event F) → Windowed F → Type 0
  IsCount t events r =
      (0 < events_in (is_type t) r.user_id r.window events)
      × (r.value ≡ f.of_nat (events_in (is_type t) r.user_id r.window events))

  counted :
      (d slide : ℕ) (t : String) (df : s.DataFrame (Event F))
      → 0 < slide
      → d ≤ minutes 1440
      → Dated l df
      → All (IsCount t (l.rows df)) (
          l.rows (
            s.group_by
              (λ e. e.user_id)
              (windows_of s d slide)
              (λ es. f.of_nat (s.count_all es))
              (s.where_ (is_type t) df)))
  unfolding IsAggregate
  counted d slide t df positive daily dated =
      All-mono
        (λ r (es, value, grid, many, tests).
          let total =
            length-eq-count es
            ∙ tests (λ e. true)
            ∙ events_in-where_ l (λ e. true) (is_type t) r.user_id r.window df
            ∙ events_in_ext l _ (is_type t) r.user_id r.window (l.rows df) (λ e. ground arith) in
          (ground (arith, total), value ∙ ap f.of_nat (l.count_all_lem es ∙ total)))
        _
        (group_by-IsAggregate l d slide _ (s.where_ (is_type t) df) positive daily
          (where_-Dated l (is_type t) df dated))

  -- For events dated a day or more after the epoch: every row of `compute_txn_count_5m` has the
  -- number of purchases, at least one, that the user made in its window, and a user and a window
  -- of the five-minute grid have one row if the user bought in it, and none otherwise.
  pub compute_txn_count_5m_lem :
      (df : s.DataFrame (Event F))
      → Dated l df
      → All (IsCount "purchase" (l.rows df)) (l.rows (compute_txn_count_5m s df))
        × ((u : String) (w : Window)
            → count
                (λ r. str_eq r.user_id u && same_window w r.window)
                (l.rows (compute_txn_count_5m s df))
              ≡ (if on_grid (minutes 5) (minutes 5) w
                    && ltb 0 (events_in (is_type "purchase") u w (l.rows df))
                  then 1
                  else 0))
  unfolding compute_txn_count_5m
  compute_txn_count_5m_lem df dated = (
    counted (minutes 5) (minutes 5) "purchase" df (omega arith) (omega arith) dated,
    λ u w. ground (
      arith,
      group_by_once l (minutes 5) (minutes 5) (λ es. f.of_nat (s.count_all es))
          (s.where_ (is_type "purchase") df) (omega arith) (omega arith)
          (where_-Dated l (is_type "purchase") df dated) u w,
      events_in-where_ l (λ e. true) (is_type "purchase") u w df,
      events_in_ext l (λ e. is_type "purchase" e && true) (is_type "purchase") u w (l.rows df)
          (λ e. ground arith),
    ),
  )
