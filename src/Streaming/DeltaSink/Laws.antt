-- ===== src/Streaming/DeltaSink/Laws.antt =====
-- What a batch leaves in the table and in the fallback.
use mathlib.Core.Path.{subst}
use feature_store.Common.{
  suc, ◌≤◌, ◌<◌, ◌≡◌, ◌⊎◌, inl, inr, ap, arith, Bool, true, false, List, ◌++◌, map, length, count,
  eq_iff, ◌==◌, if◌then◌else◌,
}
use feature_store.Common.Exec.{Exn, ok, err, Exec-cases}
use feature_store.Spark.{Spark, SparkLaws}
use feature_store.Spark.Rows.{SameRows, SameRows-count}
use feature_store.Delta.{Delta, DeltaLaws, overwrite}
use feature_store.Delta.Merge.{merged, ambiguous, merged_once}
use feature_store.Streaming.Processor.{FullRow}
use feature_store.Streaming.DeltaSink.{
  StoredRow, same_user_day, enriched, write_table, write_features_to_delta,
}

module _ {W F T : Type 0} {s : Spark F} {l : SparkLaws F s}
    {d : Delta W (StoredRow F) T s.DataFrame} (laws : DeltaLaws W (StoredRow F) T F s l d) where
  abbrev pub table : W → List (StoredRow F)
  table w = laws.rows_at w (laws.newest w)

  -- The three ways in which rows are kept: merged into the table that there is, as the table where
  -- there is none, or in the fallback.
  abbrev pub Merged : List (StoredRow F) → W → W → Type 0
  Merged rows w w' =
      (d.is_delta_table w ≡ (ok true, w))
      × (laws.newest w' ≡ suc (laws.newest w))
      × SameRows (table w') (merged same_user_day (table w) rows)

  abbrev pub Created : List (StoredRow F) → W → W → Type 0
  Created rows w w' =
      (d.is_delta_table w ≡ (ok false, w))
      × (laws.newest w' ≡ suc (laws.newest w))
      × SameRows (table w') rows

  abbrev pub FellBack : List (StoredRow F) → W → W → Type 0
  FellBack rows w w' = (table w' ≡ table w) × SameRows (laws.fallback w') (rows ++ laws.fallback w)

  -- A row in its partition: the day of its time, and the first three characters of its user.
  abbrev pub in_partition : FullRow F → StoredRow F
  in_partition r = record {
    row = r;
    event_date = s.to_date r.features.computed_at;
    user_prefix = s.substring r.features.user_id 1 3;
  }

  -- the write of the `try` body, once it is known whether there is a table
  written :
      (b : Bool) (rows : s.DataFrame (StoredRow F)) (w w' : W)
      → d.is_delta_table w ≡ (ok b, w)
      → (if b then d.merge same_user_day rows else d.save overwrite rows) w ≡ (ok tt, w')
      → Merged (l.rows rows) w w' ⊎ Created (l.rows rows) w w'
  written true rows w w' there h = inl (
    there,
    (laws.merge_versions same_user_day rows w w' h).0,
    laws.merge_rows same_user_day rows w w' h,
  )
  written false rows w w' there h =
      inr (there, (laws.save_versions overwrite rows w w' h).0, laws.save_overwrite rows w w' h)

  not_written :
      (b : Bool) (rows : s.DataFrame (StoredRow F)) (w w' : W) (e : Exn)
      → (if b then d.merge same_user_day rows else d.save overwrite rows) w ≡ (err e, w')
      → (table w' ≡ table w) × (laws.fallback w' ≡ laws.fallback w)
  not_written true rows w w' e h =
      let (n, r, b) = laws.merge_raises same_user_day rows w w' e h in (ground (arith, n, r), b)
  not_written false rows w w' e h =
      let (n, r, b) = laws.save_raises overwrite rows w w' e h in (ground (arith, n, r), b)

  write_table_returns :
      (rows : s.DataFrame (StoredRow F)) (w w' : W)
      → write_table s d rows w ≡ (ok tt, w')
      → Merged (l.rows rows) w w' ⊎ Created (l.rows rows) w w'
  unfolding write_table
  write_table_returns rows w w' h = elim (Exec-cases (d.is_delta_table w)) [
    | inl (b, w₁, e) ↦
        let same = laws.is_delta_table_lem w w₁ (ok b) e in
        written b rows w w' (ground (arith, same, e)) (ground (arith, same))
    | inr (x, w₁, e) ↦ absurd (ground arith)
  ]

  pub write_table_raises :
      (rows : s.DataFrame (StoredRow F)) (w w' : W) (x : Exn)
      → write_table s d rows w ≡ (err x, w')
      → (table w' ≡ table w) × (laws.fallback w' ≡ laws.fallback w)
  unfolding write_table
  write_table_raises rows w w' x h = elim (Exec-cases (d.is_delta_table w)) [
    | inl (b, w₁, e) ↦
        not_written b rows w w' x (ground (arith, laws.is_delta_table_lem w w₁ (ok b) e))
    | inr (y, w₁, e) ↦
        let same = laws.is_delta_table_lem w w₁ (err y) e in (ground (arith), ground (arith))
  ]

  -- what `append_parquet` adds after a failed write
  fell_back :
      (rows : s.DataFrame (StoredRow F)) (w w₁ w' : W)
      → (table w₁ ≡ table w) × (laws.fallback w₁ ≡ laws.fallback w)
      → d.append_parquet rows w₁ ≡ (ok tt, w')
      → FellBack (l.rows rows) w w'
  fell_back rows w w₁ w' (t, b) h =
      let (n, r, more) = laws.append_parquet_lem rows w₁ w' h in
      (ground (arith, n, r, t), subst (λ z. SameRows (laws.fallback w') (l.rows rows ++ z)) b more)

  module _ (batch_df : s.DataFrame (FullRow F)) where
    abbrev rows : s.DataFrame (StoredRow F)
    rows = enriched s d batch_df

    size-pos : 0 < length (l.rows batch_df) → (s.size batch_df == 0) ≡ false
    size-pos h = ground (arith, l.size_lem batch_df)

    rows_kept :
        (w w' : W)
        → 0 < length (l.rows batch_df)
        → write_features_to_delta s d batch_df w ≡ (ok tt, w')
        → Merged (l.rows rows) w w' ⊎ (Created (l.rows rows) w w' ⊎ FellBack (l.rows rows) w w')
    unfolding write_features_to_delta
    rows_kept w w' some_row h = elim (Exec-cases (write_table s d rows w)) [
      | inl (u, w₁, e) ↦ elim (write_table_returns rows w w' (ground (arith, size-pos some_row))) [
        | inl m ↦ inl m
        | inr c ↦ inr (inl c)
      ]
      | inr (x, w₁, e) ↦ inr (
          inr (
            fell_back rows w w₁ w' (write_table_raises rows w w₁ x e)
              (ground (arith, size-pos some_row))))
    ]

    -- If the sink returns for a batch that is not empty, then its rows, each in the partition of
    -- the day of its time and of the first three characters of its user, are merged into the table
    -- that there was, or there was no table and they are the new one, or the table is as it was and
    -- they are all added to the fallback.
    pub write_features_to_delta_kept :
        (w w' : W)
        → 0 < length (l.rows batch_df)
        → write_features_to_delta s d batch_df w ≡ (ok tt, w')
        → (kept : List (StoredRow F)) × SameRows kept (map in_partition (l.rows batch_df))
          × (Merged kept w w' ⊎ (Created kept w w' ⊎ FellBack kept w w'))
    unfolding enriched
    write_features_to_delta_kept w w' some_row h =
        (l.rows rows, l.select_lem in_partition batch_df, rows_kept w w' some_row h)

    same-cong :
        (t x y : StoredRow F) → same_user_day t x ≡ true → same_user_day y t ≡ same_user_day y x
    same-cong t x y h = ground (
      arith,
      eq_iff t.row.features.user_id x.row.features.user_id,
      eq_iff t.event_date x.event_date,
    )

    same-meet :
        (y t x : StoredRow F)
        → same_user_day y t ≡ true
        → same_user_day y x ≡ true
        → same_user_day t x ≡ true
    same-meet y t x h k = ground (
      arith,
      eq_iff y.row.features.user_id t.row.features.user_id,
      eq_iff y.event_date t.event_date,
    )

    -- Where the table has one row at most for a user and a day, and a batch that is not empty has
    -- one at most for them, a sink that returns leaves one at most in the table.
    pub write_features_to_delta_once :
        (w w' : W) (y : StoredRow F)
        → 0 < length (l.rows batch_df)
        → count (same_user_day y) (table w) ≤ 1
        → count (same_user_day y) (l.rows rows) ≤ 1
        → write_features_to_delta s d batch_df w ≡ (ok tt, w')
        → count (same_user_day y) (table w') ≤ 1
    write_features_to_delta_once w w' y some_row old new h = elim (rows_kept w w' some_row h) [
      | inl (there, n, m) ↦ ground (
        arith,
        SameRows-count (same_user_day y) m,
        merged_once same_user_day same-cong same-meet y (table w) (l.rows rows) old new,
      )
      | inr (inl (there, n, c)) ↦ ground (arith, SameRows-count (same_user_day y) c)
      | inr (inr (same, b)) ↦ ground (arith, ap (count (same_user_day y)) same)
    ]

    -- Where there is a table, and several rows of a batch that is not empty are of the user and the
    -- day of one of its rows, a sink that returns has left the table as it was and added the whole
    -- batch to the fallback.
    pub write_features_to_delta_falls_back :
        (w w' : W)
        → 0 < length (l.rows batch_df)
        → d.is_delta_table w ≡ (ok true, w)
        → ambiguous same_user_day (table w) (l.rows rows) ≡ true
        → write_features_to_delta s d batch_df w ≡ (ok tt, w')
        → FellBack (l.rows rows) w w'
    unfolding write_features_to_delta write_table
    write_features_to_delta_falls_back w w' some_row there several h =
        let (x, w₁, e) = laws.merge_ambiguous same_user_day rows w several in
        let (n, r, b) = laws.merge_raises same_user_day rows w w₁ x e in
        fell_back rows w w₁ w' (ground (arith, n, r), b)
          (ground (arith, e, there, size-pos some_row))
