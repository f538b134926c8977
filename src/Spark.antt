-- ===== src/Spark.antt =====
-- Spark's data frames, as the code uses them: an interface, and the documented meaning of each
-- operation on the rows. `Spark/Memory` is a value of both. The order of the rows is left open.
pub mod Rows
pub mod Joins
pub mod Memory
use feature_store.Common.{
  ℕ, ◌+◌, ◌*◌, ◌≤◌, ◌<◌, ◌%◌, ◌≡◌, String, Bool, true, false, ◌&&◌, Option, none, some, List, [],
  ◌∷◌, map, filter, count, any, length, is_empty, All, str_eq, ltb, leb, ◌==◌, if◌then◌else◌,
}
use feature_store.Spark.Rows.{
  Window, Windowed, same_window, in_window, on_grid, SameRows, in_group, join_rows, sum,
}

pub record Spark (F : Type 0) : Type 1 where
  pub DataFrame : Type 0 → Type 0
  -- `df.filter(p)`, where a test that is null counts as false
  pub where_ : {A : Type 0} → (A → Bool) → DataFrame A → DataFrame A
  -- `df.select(...)` and `df.withColumn(...)`
  pub select : {A B : Type 0} → (A → B) → DataFrame A → DataFrame B
  -- `F.window(timestamp, duration, slide)`: the windows that a time is in
  pub window : ℕ → ℕ → ℕ → List Window
  -- `df.groupBy(user, window).agg(...)`
  pub group_by :
      {A B : Type 0}
      → (A → String)
      → (A → List Window)
      → (List A → B)
      → DataFrame A
      → DataFrame (Windowed B)
  -- `df.join(other, on=..., how="left")`
  pub left_join :
      {A B : Type 0}
      → (A → String)
      → (B → String)
      → DataFrame A
      → DataFrame B
      → DataFrame (A × Option B)
  -- `df.count()`
  pub size : {A : Type 0} → DataFrame A → ℕ
  -- `F.to_date(F.from_unixtime(seconds))`, and `F.substring(text, position, length)`
  pub to_date : F → String
  pub substring : String → ℕ → ℕ → String
  -- `F.unix_timestamp` of a time in microseconds
  pub unix_timestamp : ℕ → F
  -- `F.count("*")`, `F.sum` of whole numbers, `F.countDistinct`
  pub count_all : {A : Type 0} → List A → ℕ
  pub sum_of : List ℕ → ℕ
  pub count_distinct : List String → ℕ
  -- `F.avg` and `F.stddev` of the values that are not null, which are null where there are too few
  pub avg : List F → Option F
  pub stddev : List F → Option F

pub record SparkLaws (F : Type 0) (s : Spark F) : Type 1 where
  -- the rows of a data frame, in some order
  pub rows : {A : Type 0} → s.DataFrame A → List A
  pub where_lem :
      {A : Type 0} (p : A → Bool) (d : s.DataFrame A)
      → SameRows (rows (s.where_ p d)) (filter p (rows d))
  pub select_lem :
      {A B : Type 0} (g : A → B) (d : s.DataFrame A)
      → SameRows (rows (s.select g d)) (map g (rows d))
  -- A time at least `d` after the epoch is in the windows of length `d`, from multiples of the
  -- slide on, that have it between their ends.
  pub window_lem :
      (d slide t : ℕ) (w : Window)
      → 0 < slide
      → d ≤ t
      → any (same_window w) (s.window d slide t) ≡ (on_grid d slide w && in_window w t)
  -- One row for each group that has rows, with the aggregate of them in some order.
  pub group_once :
      {A B : Type 0} (user : A → String) (ws : A → List Window) (agg : List A → B)
      (d : s.DataFrame A) (u : String) (w : Window)
      → count (λ r. str_eq r.user_id u && same_window w r.window) (rows (s.group_by user ws agg d))
        ≡ (if any (in_group user ws u w) (rows d) then 1 else 0)
  pub group_rows :
      {A B : Type 0} (user : A → String) (ws : A → List Window) (agg : List A → B)
      (d : s.DataFrame A)
      → All {A = Windowed B}
          (λ r.
            (xs : List A) × SameRows xs (filter (in_group user ws r.user_id r.window) (rows d))
            × (is_empty xs ≡ false)
            × (r.value ≡ agg xs))
          (rows (s.group_by user ws agg d))
  pub join_lem :
      {A B : Type 0} (ka : A → String) (kb : B → String) (d : s.DataFrame A) (e : s.DataFrame B)
      → SameRows (rows (s.left_join ka kb d e)) (join_rows ka kb (rows d) (rows e))
  pub size_lem : {A : Type 0} (d : s.DataFrame A) → s.size d ≡ length (rows d)
  pub count_all_lem : {A : Type 0} (xs : List A) → s.count_all xs ≡ length xs
  pub sum_of_lem : (xs : List ℕ) → s.sum_of xs ≡ sum xs
  pub count_distinct_le : (xs : List String) → s.count_distinct xs ≤ length xs
  pub count_distinct_pos : (x : String) (xs : List String) → 0 < s.count_distinct (x ∷ xs)
  pub count_distinct_nil : s.count_distinct [] ≡ 0
