-- ===== src/Streaming/DeltaSink/Kept.antt =====
-- That no user's day is lost: neither from the table and the fallback together, nor from a batch.
use feature_store.Common.{
  ℕ, ◌+◌, ◌<◌, ◌≡◌, ap, ◌∙◌, arith, Bool, true, false, length, count, eq_iff, ◌==◌, if◌then◌else◌,
  Bool-cases, inl, inr, count-le-length, length-map,
}
use feature_store.Common.Exec.{Result, ok, err, Exec-cases}
use feature_store.Spark.{Spark, SparkLaws}
use feature_store.Spark.Rows.{SameRows-count, SameRows-length, count-append}
use feature_store.Delta.{Delta, DeltaLaws, overwrite}
use feature_store.Delta.Merge.{merged_has}
use feature_store.Streaming.Processor.{FullRow}
use feature_store.Streaming.DeltaSink.{
  StoredRow, same_user_day, enriched, write_table, write_features_to_delta,
}
use feature_store.Streaming.DeltaSink.Laws.{table, write_table_raises}

module _ {F : Type 0} where
  same-cong :
      (t x y : StoredRow F) → same_user_day t x ≡ true → same_user_day y t ≡ same_user_day y x
  same-cong t x y h = ground (
    arith,
    eq_iff t.row.features.user_id x.row.features.user_id,
    eq_iff t.event_date x.event_date,
  )

  same-back :
      (y t x : StoredRow F)
      → same_user_day y x ≡ true
      → same_user_day t x ≡ true
      → same_user_day y t ≡ true
  same-back y t x h k = ground (
    arith,
    eq_iff y.row.features.user_id x.row.features.user_id,
    eq_iff y.event_date x.event_date,
    eq_iff t.row.features.user_id x.row.features.user_id,
    eq_iff t.event_date x.event_date,
    eq_iff y.row.features.user_id t.row.features.user_id,
    eq_iff y.event_date t.event_date,
  )

module _ {W F T : Type 0} {s : Spark F} {l : SparkLaws F s}
    {d : Delta W (StoredRow F) T s.DataFrame} (laws : DeltaLaws W (StoredRow F) T F s l d)
    (y : StoredRow F) where
  -- How many rows of the user and the day of `y` there are, in the table and in the fallback.
  abbrev pub stored : W → ℕ
  stored w = count (same_user_day y) (table laws w) + count (same_user_day y) (laws.fallback w)

  abbrev pub coming : s.DataFrame (StoredRow F) → ℕ
  coming rows = count (same_user_day y) (l.rows rows)

  stored_by :
      (b : Bool) (rows : s.DataFrame (StoredRow F)) (w w' : W)
      → d.is_delta_table w ≡ (ok b, w)
      → (if b then d.merge same_user_day rows else d.save overwrite rows) w ≡ (ok tt, w')
      → 0 < stored w + coming rows
      → 0 < stored w'
  stored_by true rows w w' there h k = ground (
    arith,
    SameRows-count (same_user_day y) (laws.merge_rows same_user_day rows w w' h),
    ap (count (same_user_day y)) (laws.merge_fallback same_user_day rows w w' h),
    merged_has same_user_day same-cong same-back y (table laws w) (l.rows rows),
  )
  stored_by false rows w w' there h k = omega (
    arith,
    SameRows-count (same_user_day y) (laws.save_overwrite rows w w' h),
    ap (count (same_user_day y)) (laws.save_fallback overwrite rows w w' h),
    ap (count (same_user_day y)) (laws.no_table w w there),
  )

  write_table-stored :
      (rows : s.DataFrame (StoredRow F)) (w w' : W)
      → write_table s d rows w ≡ (ok tt, w')
      → 0 < stored w + coming rows
      → 0 < stored w'
  unfolding write_table
  write_table-stored rows w w' h k = elim (Exec-cases (d.is_delta_table w)) [
    | inl (b, w₁, e) ↦
        let same = laws.is_delta_table_lem w w₁ (ok b) e in
        stored_by b rows w w' (ground (arith, same, e)) (ground (arith, same, e)) k
    | inr (x, w₁, e) ↦ absurd (ground arith)
  ]

  rows-length :
      (batch_df : s.DataFrame (FullRow F))
      → length (l.rows (enriched s d batch_df)) ≡ length (l.rows batch_df)
  unfolding enriched
  rows-length batch_df = SameRows-length (l.select_lem _ batch_df) ∙ length-map _ (l.rows batch_df)

  append_keeps :
      (rows : s.DataFrame (StoredRow F)) (w w' : W) (r : Result (Unit {0}))
      → d.append_parquet rows w ≡ (r, w')
      → 0 < stored w
      → 0 < stored w'
  append_keeps rows w w' (ok u) h k =
      let (n, same, more) = laws.append_parquet_lem rows w w' h in
      let t : table laws w' ≡ table laws w = ground (arith, n, same) in
      omega (
        arith,
        ap (count (same_user_day y)) t,
        SameRows-count (same_user_day y) more,
        count-append (same_user_day y) (l.rows rows) (laws.fallback w),
      )
  append_keeps rows w w' (err x) h k =
      let (n, same, more) = laws.append_parquet_raises rows w w' x h in
      let t : table laws w' ≡ table laws w = ground (arith, n, same) in
      omega (arith, ap (count (same_user_day y)) t, more (same_user_day y))

  coming_none :
      (batch_df : s.DataFrame (FullRow F))
      → (s.size batch_df == 0) ≡ true
      → coming (enriched s d batch_df) ≡ 0
  unfolding enriched
  coming_none batch_df h =
      let selected = enriched s d batch_df in
      ground (
        arith,
        count-le-length (same_user_day y) (l.rows selected),
        rows-length batch_df,
        l.size_lem batch_df,
      )

  -- Whether the sink returns or raises, what was stored of a user's day stays stored.
  pub write_keeps :
      (batch_df : s.DataFrame (FullRow F)) (w w' : W) (r : Result (Unit {0}))
      → write_features_to_delta s d batch_df w ≡ (r, w')
      → 0 < stored w
      → 0 < stored w'
  unfolding write_features_to_delta
  write_keeps batch_df w w' r h k =
      let rows = enriched s d batch_df in
      elim (Bool-cases (s.size batch_df == 0)) [
        | inl none ↦ let same : w' ≡ w = ground arith in omega (arith, ap stored same)
        | inr some ↦ elim (Exec-cases (write_table s d rows w)) [
          | inl (u, w₁, e) ↦ write_table-stored rows w w' (ground arith) (omega arith)
          | inr (x, w₁, e) ↦
              let (t, b) = write_table_raises laws rows w w₁ x e in
              append_keeps rows w₁ w' r (ground arith)
                (omega (arith, ap (count (same_user_day y)) t, ap (count (same_user_day y)) b))
        ]
      ]

  -- A sink that returns has stored every user's day that the batch has.
  pub write_adds :
      (batch_df : s.DataFrame (FullRow F)) (w w' : W)
      → write_features_to_delta s d batch_df w ≡ (ok tt, w')
      → 0 < coming (enriched s d batch_df)
      → 0 < stored w'
  unfolding write_features_to_delta
  write_adds batch_df w w' h k =
      let rows = enriched s d batch_df in
      elim (Bool-cases (s.size batch_df == 0)) [
        | inl none ↦ absurd (omega (arith, coming_none batch_df none))
        | inr some ↦ elim (Exec-cases (write_table s d rows w)) [
          | inl (u, w₁, e) ↦ write_table-stored rows w w' (ground arith) (omega arith)
          | inr (x, w₁, e) ↦
              let (n, r, more) = laws.append_parquet_lem rows w₁ w' (ground arith) in
              omega (
                arith,
                SameRows-count (same_user_day y) more,
                count-append (same_user_day y) (l.rows rows) (laws.fallback w₁),
              )
        ]
      ]
