-- ===== src/OfflineStore/TimeTravel.antt =====
-- What the reads return, before and after the writes.
use mathlib.Core.List.{Permᴰ}
use mathlib.Core.Path.{subst}
use feature_store.Common.{
  ◌≡◌, refl, arith, String, Bool, true, Option, none, some, List, [], ◌∷◌, map, filter, is_empty,
  if◌then◌else◌, inl, inr,
}
use feature_store.Common.Exec.{ok, Exec-cases}
use feature_store.Spark.{Spark, SparkLaws}
use feature_store.Spark.Rows.{SameRows, chain_rows, SameRows-filter, SameRows-map, same_rows}
use feature_store.Delta.{Delta, DeltaLaws, time}
use feature_store.Streaming.DeltaSink.{StoredRow}
use feature_store.OfflineStore.Reader.{
  TrainingRow, training_row, read_option, is_in, of_cohort, read_features_at,
  read_features_for_training,
}

-- the cohort that a list of users stands for
abbrev pub in_cohort : {F : Type 0} → Option (List String) → StoredRow F → Bool
in_cohort none r = true
in_cohort (some ids) r = if is_empty ids then true else is_in ids r

filter-true : {A : Type 0} (xs : List A) → SameRows xs (filter (λ x. true) xs)
filter-true [] = same_rows []
filter-true (x ∷ xs) = Permᴰ.cons refl (filter-true xs)

rows-of_cohort :
    {F : Type 0} {s : Spark F} (l : SparkLaws F s) (ids : Option (List String))
    (df : s.DataFrame (StoredRow F))
    → SameRows (l.rows (of_cohort s ids df)) (filter (in_cohort ids) (l.rows df))
unfolding of_cohort
rows-of_cohort l none df = filter-true (l.rows df)
rows-of_cohort l (some []) df = filter-true (l.rows df)
rows-of_cohort l (some (u ∷ us)) df = l.where_lem (is_in (u ∷ us)) df

module _ {W F T : Type 0} {s : Spark F} {l : SparkLaws F s}
    {d : Delta W (StoredRow F) T s.DataFrame} (laws : DeltaLaws W (StoredRow F) T F s l d) where
  -- A training read that returns has changed nothing, and has the columns of the rows that the
  -- table had at that time, of the users asked for; no list, or an empty one, asks for all.
  pub read_features_for_training_lem :
      (as_of : T) (ids : Option (List String)) (x : s.DataFrame (TrainingRow F)) (w w' : W)
      → read_features_for_training s d as_of ids w ≡ (ok x, w')
      → (w' ≡ w)
        × SameRows
            (l.rows x)
            (map training_row (filter (in_cohort ids) (laws.rows_at w (laws.version_at w as_of))))
  unfolding read_features_for_training read_features_at read_option
  read_features_for_training_lem as_of ids x w w' h = elim (Exec-cases (d.load (time as_of) w)) [
    | inl (df, w₁, e) ↦
        let (same, old, rows) = laws.load_time as_of w w₁ df e in
        let read : s.select training_row (of_cohort s ids df) ≡ x = ground arith in
        (
          ground (arith, same),
          subst
              (λ y. SameRows (l.rows y) (
                map training_row
                  (filter (in_cohort ids) (laws.rows_at w (laws.version_at w as_of)))))
              read
              (chain_rows (l.select_lem training_row (of_cohort s ids df)) (
                SameRows-map training_row
                  (chain_rows (rows-of_cohort l ids df) (SameRows-filter (in_cohort ids) rows)))),
        )
    | inr (y, w₁, e) ↦ absurd (ground arith)
  ]
