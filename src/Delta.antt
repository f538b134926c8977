-- ===== src/Delta.antt =====
-- A Delta table, as the code uses it through Spark: an interface with the documented behaviour of
-- each call. `Delta/Memory` is a value of both.
pub mod Merge
pub mod Memory
use feature_store.Common.{
  ℕ, suc, ◌+◌, ◌≤◌, ◌≡◌, Bool, true, false, Option, none, some, List, [], ◌++◌, count,
}
use feature_store.Common.Exec.{Exec, Exn, Result, ok, err}
use feature_store.Spark.{Spark, SparkLaws}
use feature_store.Spark.Rows.{SameRows}
use feature_store.Delta.Merge.{merged, ambiguous}

-- `.mode(...)` of a write
pub data Mode : Type 0 where
  append overwrite : Mode

-- what a read is of: the option `versionAsOf` or `timestampAsOf`, or neither
pub data AsOf (T : Type 0) : Type 0 where
  version : ℕ → AsOf T
  time : T → AsOf T
  latest : AsOf T

-- Rows of type `R`, in the frames `D R`, with times `T`.
pub record Delta (W R T : Type 0) (D : Type 0 → Type 0) : Type 0 where
  pub is_delta_table : Exec W Bool
  -- `merge(source, condition).whenMatchedUpdateAll().whenNotMatchedInsertAll().execute()`
  pub merge : (R → R → Bool) → D R → Exec W (Unit {0})
  -- `write.format("delta").mode(mode).save(path)`
  pub save : Mode → D R → Exec W (Unit {0})
  pub load : AsOf T → Exec W (D R)
  -- `write.mode("append").parquet(path)`, at the path of the fallback
  pub append_parquet : D R → Exec W (Unit {0})

pub record DeltaLaws (W R T F : Type 0) (s : Spark F) (l : SparkLaws F s)
    (d : Delta W R T s.DataFrame) : Type 0 where
  -- How many versions have been made, and the rows after so many of them: Delta counts its versions
  -- from zero, so version `n` has the rows after `suc n`.
  pub newest : W → ℕ
  pub rows_at : W → ℕ → List R
  pub version_at : W → T → ℕ
  pub fallback : W → List R
  pub is_delta_table_lem : (w w' : W) (b : Result Bool) → d.is_delta_table w ≡ (b, w') → w' ≡ w
  pub no_table : (w w' : W) → d.is_delta_table w ≡ (ok false, w') → rows_at w (newest w) ≡ []
  -- A write that succeeds makes a new version, and the old ones stay.
  pub save_versions :
      (m : Mode) (x : s.DataFrame R) (w w' : W)
      → d.save m x w ≡ (ok tt, w')
      → (newest w' ≡ suc (newest w)) × ((n : ℕ) → n ≤ newest w → rows_at w' n ≡ rows_at w n)
  pub save_append :
      (x : s.DataFrame R) (w w' : W)
      → d.save append x w ≡ (ok tt, w')
      → SameRows (rows_at w' (newest w')) (l.rows x ++ rows_at w (newest w))
  pub save_overwrite :
      (x : s.DataFrame R) (w w' : W)
      → d.save overwrite x w ≡ (ok tt, w')
      → SameRows (rows_at w' (newest w')) (l.rows x)
  -- The files of the fallback are not the table's.
  pub save_fallback :
      (m : Mode) (x : s.DataFrame R) (w w' : W)
      → d.save m x w ≡ (ok tt, w')
      → fallback w' ≡ fallback w
  pub merge_fallback :
      (c : R → R → Bool) (x : s.DataFrame R) (w w' : W)
      → d.merge c x w ≡ (ok tt, w')
      → fallback w' ≡ fallback w
  pub merge_versions :
      (c : R → R → Bool) (x : s.DataFrame R) (w w' : W)
      → d.merge c x w ≡ (ok tt, w')
      → (newest w' ≡ suc (newest w)) × ((n : ℕ) → n ≤ newest w → rows_at w' n ≡ rows_at w n)
  pub merge_rows :
      (c : R → R → Bool) (x : s.DataFrame R) (w w' : W)
      → d.merge c x w ≡ (ok tt, w')
      → SameRows (rows_at w' (newest w')) (merged c (rows_at w (newest w)) (l.rows x))
  -- A row of the table that several rows of the source match makes the merge raise.
  pub merge_ambiguous :
      (c : R → R → Bool) (x : s.DataFrame R) (w : W)
      → ambiguous c (rows_at w (newest w)) (l.rows x) ≡ true
      → (e : Exn) × (w' : W) × (d.merge c x w ≡ (err e, w'))
  -- What raises leaves the table as it was.
  pub merge_raises :
      (c : R → R → Bool) (x : s.DataFrame R) (w w' : W) (e : Exn)
      → d.merge c x w ≡ (err e, w')
      → (newest w' ≡ newest w) × (rows_at w' ≡ rows_at w) × (fallback w' ≡ fallback w)
  pub save_raises :
      (m : Mode) (x : s.DataFrame R) (w w' : W) (e : Exn)
      → d.save m x w ≡ (err e, w')
      → (newest w' ≡ newest w) × (rows_at w' ≡ rows_at w) × (fallback w' ≡ fallback w)
  pub append_parquet_lem :
      (x : s.DataFrame R) (w w' : W)
      → d.append_parquet x w ≡ (ok tt, w')
      → (newest w' ≡ newest w)
        × (rows_at w' ≡ rows_at w)
        × SameRows (fallback w') (l.rows x ++ fallback w)
  -- An append that raises has taken nothing away.
  pub append_parquet_raises :
      (x : s.DataFrame R) (w w' : W) (e : Exn)
      → d.append_parquet x w ≡ (err e, w')
      → (newest w' ≡ newest w)
        × (rows_at w' ≡ rows_at w)
        × ((p : R → Bool) → count p (fallback w) ≤ count p (fallback w'))
  pub load_version :
      (n : ℕ) (w w' : W) (x : s.DataFrame R)
      → d.load (version n) w ≡ (ok x, w')
      → (w' ≡ w) × (suc n ≤ newest w) × SameRows (l.rows x) (rows_at w (suc n))
  pub load_time :
      (t : T) (w w' : W) (x : s.DataFrame R)
      → d.load (time t) w ≡ (ok x, w')
      → (w' ≡ w) × (version_at w t ≤ newest w) × SameRows (l.rows x) (rows_at w (version_at w t))
  pub load_latest :
      (w w' : W) (x : s.DataFrame R)
      → d.load latest w ≡ (ok x, w')
      → (w' ≡ w) × SameRows (l.rows x) (rows_at w (newest w))
