-- ===== src/Spark/Memory.antt =====
-- Data frames held in memory as lists: a value of the interface `Spark` at which its laws hold.
mod Windows
mod Groups
use feature_store.Spark.{Spark, SparkLaws}
use Windows.{windows, any-windows}
use Groups.{grouped, count-grouped, All-grouped}
use mathlib.Core.List.{foldl}
use mathlib.Core.Path.{subst}
use native.Mathlib.Nat.{
  div-add-mod', mul-mod_left, mul-div_left, le-div_iff_mul-le, div-lt_iff_lt-mul, lt-mul-div-succ,
  mul_comm, add-mul,
}
use Prim.Native.String.{slice}
use feature_store.Common.{
  ℕ, zero, suc, ◌+◌, ◌*◌, ◌-◌, ◌/◌, ◌≤◌, ◌<◌, ◌%◌, ◌≡◌, refl, sym, ap, ◌∙◌, arith, String, Bool,
  true, false, ◌&&◌, ◌||◌, not, Option, none, some, List, [], ◌∷◌, ◌++◌, map, filter, count, any,
  length, is_empty, All, length-filter, count-le-length, str_eq, eq_iff, ltb, leb, ◌==◌,
  if◌then◌else◌, Bool-cases, inl, inr, ==_iff,
}
use feature_store.Spark.Rows.{
  Window, Windowed, same_window, in_window, on_grid, SameRows, same_rows, in_group, join_rows, sum,
  count-filter, count_ext, count-map,
}
use feature_store.Float.{Float, fsum, nought}
use feature_store.Float.Fixed.{Fixed, fixed_float}

abbrev pub distinct_texts : List String → List String
distinct_texts [] = []
distinct_texts (x ∷ xs) = x ∷ filter (λ y. not (str_eq x y)) (distinct_texts xs)

pub length-distinct_texts : (xs : List String) → length (distinct_texts xs) ≤ length xs
length-distinct_texts [] = omega arith
length-distinct_texts (x ∷ xs) =
    let ys = distinct_texts xs in
    omega (
      arith,
      length-distinct_texts xs,
      length-filter (λ y. not (str_eq x y)) ys,
      count-le-length (λ y. not (str_eq x y)) ys,
    )

module _ {F : Type 0} ⦃f : Float F⦄ where
  abbrev pub mean : List F → Option F
  mean [] = none
  mean (x ∷ xs) = some (f.div (fsum (x ∷ xs)) (f.of_nat (length (x ∷ xs))))

  -- The standard deviation is an argument, since the interface of floats has no root.
  abbrev pub memory_spark : (List F → Option F) → Spark F
  memory_spark deviation = record {
    DataFrame = λ A. List A;
    where_ = filter;
    select = map;
    window = windows;
    group_by = grouped;
    left_join = join_rows;
    size = length;
    to_date = f.str;
    substring = λ t position n. slice t (position - 1) n;
    unix_timestamp = λ t. f.of_nat (t / 1000000);
    count_all = length;
    sum_of = sum;
    count_distinct = λ xs. length (distinct_texts xs);
    avg = mean;
    stddev = deviation;
  }

  unfoldable pub memory-SparkLaws :
      (deviation : List F → Option F) → SparkLaws F (memory_spark deviation)
  memory-SparkLaws deviation = record {
    rows = λ d. d;
    where_lem = λ p d. same_rows _;
    select_lem = λ g d. same_rows _;
    window_lem = λ d slide t w h _. any-windows d slide t w h;
    group_once = λ user ws agg d u w. count-grouped user ws agg d u w;
    group_rows = λ user ws agg d. All-grouped user ws agg d;
    join_lem = λ ka kb d e. same_rows _;
    size_lem = λ d. refl;
    count_all_lem = λ xs. refl;
    sum_of_lem = λ xs. refl;
    count_distinct_le = λ xs. length-distinct_texts xs;
    count_distinct_pos = λ x xs. omega arith;
    count_distinct_nil = refl;
  }

  pub rows-memory :
      {A : Type 0} (deviation : List F → Option F) (d : List A)
      → (memory-SparkLaws deviation).rows d ≡ d
  unfolding memory-SparkLaws
  rows-memory deviation d = refl
