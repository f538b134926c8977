-- ===== src/Delta/Memory.antt =====
-- A Delta table held in memory, all its versions with it: a value of the interface `Delta` at
-- which its laws hold, with the data frames that are held in memory too.
use mathlib.Core.Path.{subst}
use feature_store.Common.{
  ℕ, suc, ◌≤◌, ◌≡◌, refl, sym, ap, arith, List, [], ◌++◌, Option, min, ◌==◌, ltb, if◌then◌else◌,
}
use feature_store.Common.Exec.{Exec, ok, err, other_error}
use feature_store.Float.{Float}
use feature_store.Spark.Memory.{memory_spark, memory-SparkLaws}
use feature_store.Spark.Rows.{SameRows, same_rows}
use feature_store.Delta.Merge.{merged, ambiguous}
use feature_store.Delta.{Delta, DeltaLaws, Mode, append, overwrite, AsOf, version, time, latest}

pub record Table (R : Type 0) : Type 0 where
  pub newest : ℕ
  pub rows_at : ℕ → List R
  pub fallback : List R

module _ {R : Type 0} where
  abbrev pub no_table : Table R
  no_table = record { newest = 0; rows_at = λ n. []; fallback = [] }

  -- the rows after `n` versions; before the first there is no table
  abbrev pub visible : Table R → ℕ → List R
  visible w n = if n == 0 then [] else w.rows_at n

  abbrev pub commit : List R → Table R → Table R
  commit rows w = record {
    newest = suc w.newest;
    rows_at = λ n. if n == suc w.newest then rows else w.rows_at n;
    fallback = w.fallback;
  }

  abbrev pub saved : Mode → List R → Table R → List R
  saved append x w = x ++ visible w w.newest
  saved overwrite x w = x

  abbrev pub found : AsOf ℕ → Exec (Table R) (List R)
  found (version n) w = if ltb n w.newest then (ok (visible w (suc n)), w) else (err other_error, w)
  found (time t) w = (ok (visible w (min t w.newest)), w)
  found latest w = (ok (visible w w.newest), w)

  abbrev pub memory_delta : Delta (Table R) R ℕ (λ A. List A)
  memory_delta = record {
    is_delta_table = λ w. (ok (ltb 0 w.newest), w);
    merge = λ c x w.
        if ambiguous c (visible w w.newest) x
        then (err other_error, w)
        else (ok tt, commit (merged c (visible w w.newest) x) w);
    save = λ m x w. (ok tt, commit (saved m x w) w);
    load = found;
    append_parquet = λ x w. (ok tt, record w { fallback = x ++ w.fallback });
  }

module _ {R : Type 0} where
  pub same_as : {xs ys : List R} → xs ≡ ys → SameRows xs ys
  same_as {xs} e = subst (SameRows xs) e (same_rows xs)

  pub committed :
      (rows : List R) (w w' : Table R)
      → w' ≡ commit rows w
      → (w'.newest ≡ suc w.newest)
        × ((n : ℕ) → n ≤ w.newest → visible w' n ≡ visible w n)
        × (visible w' w'.newest ≡ rows)
  committed rows w w' h =
      subst
        (λ v.
          (v.newest ≡ suc w.newest)
          × ((n : ℕ) → n ≤ w.newest → visible v n ≡ visible w n)
          × (visible v v.newest ≡ rows))
        (sym h) (refl, λ n k. ground arith, ground arith)

  pub committed_fallback :
      (rows : List R) (w w' : Table R) → w' ≡ commit rows w → w'.fallback ≡ w.fallback
  committed_fallback rows w w' h = ap (λ v. v.fallback) h

  pub unchanged :
      (w w' : Table R)
      → w' ≡ w
      → (w'.newest ≡ w.newest) × (visible w' ≡ visible w) × (w'.fallback ≡ w.fallback)
  unchanged w w' h = (ap (λ v. v.newest) h, ap (λ v. visible v) h, ap (λ v. v.fallback) h)

  pub appended :
      (x : List R) (w w' : Table R)
      → w' ≡ record w { fallback = x ++ w.fallback }
      → (w'.newest ≡ w.newest) × (visible w' ≡ visible w) × SameRows w'.fallback (x ++ w.fallback)
  appended x w w' h =
      (ap (λ v. v.newest) h, ap (λ v. visible v) h, same_as (ap (λ v. v.fallback) h))

module _ {R F : Type 0} ⦃f : Float F⦄ (deviation : List F → Option F) where
  unfoldable pub memory-DeltaLaws :
      DeltaLaws (Table R) R ℕ F (memory_spark deviation) (memory-SparkLaws deviation) memory_delta
  unfolding memory-SparkLaws
  memory-DeltaLaws = record {
    newest = λ w. w.newest;
    rows_at = λ w. visible w;
    version_at = λ w t. min t w.newest;
    fallback = λ w. w.fallback;
    is_delta_table_lem = λ w w' b h. ground arith;
    save_versions = λ m x w w' h. let e = committed (saved m x w) w w' (ground arith) in (e.0, e.1);
    save_append = λ x w w' h. same_as (committed (saved append x w) w w' (ground arith)).2;
    save_overwrite = λ x w w' h. same_as (committed x w w' (ground arith)).2;
    no_table = λ w w' h. ground arith;
    save_fallback = λ m x w w' h. (committed_fallback (saved m x w) w w' (ground arith));
    merge_fallback =
        λ c x w w' h. committed_fallback (merged c (visible w w.newest) x) w w' (ground arith);
    merge_versions = λ c x w w' h.
        let e = committed (merged c (visible w w.newest) x) w w' (ground arith) in (e.0, e.1);
    merge_rows =
        λ c x w w' h. same_as (committed (merged c (visible w w.newest) x) w w' (ground arith)).2;
    merge_ambiguous = λ c x w h. (other_error, w, ground arith);
    merge_raises = λ c x w w' e h. unchanged w w' (ground arith);
    save_raises = λ m x w w' e h. absurd (ground arith);
    append_parquet_lem = λ x w w' h. appended x w w' (ground arith);
    append_parquet_raises = λ x w w' e h. absurd (ground arith);
    load_version = λ n w w' x h. (ground arith, ground arith, same_as (ground arith));
    load_time = λ t w w' x h. (ground arith, omega arith, same_as (ground arith));
    load_latest = λ w w' x h. (ground arith, same_as (ground arith));
  }
