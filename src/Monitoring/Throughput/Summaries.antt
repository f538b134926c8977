-- ===== src/Monitoring/Throughput/Summaries.antt =====
-- monitoring/pages/05_throughput.py: the table of the values by feature.
use feature_store.Common.{ℕ, ◌≡◌, String, List, [], ◌∷◌, is_empty, length, if◌then◌else◌}
use feature_store.Common.Dict.{Dict}
use feature_store.Common.Exec.{Result, ok, err, value_error, index_error}
use feature_store.Common.Fallible.{◌>>=◌}
use feature_store.Float.{Float}
use feature_store.Numpy.{Numpy}

-- `np.percentile(arr, q)`, which may raise
pub record Percentiles (F : Type 0) : Type 0 where
  pub percentile : List F → ℕ → Result F

-- What numpy documents: a percentile of an empty array indexes past its end.
pub record PercentileLaws (F : Type 0) ⦃q : Percentiles F⦄ : Type 0 where
  pub percentile_empty : (n : ℕ) → q.percentile [] n ≡ err index_error
  pub percentile_some : (x : F) (xs : List F) (n : ℕ) → (y : F) × (q.percentile (x ∷ xs) n ≡ ok y)

-- a line of the table, less the title of the feature
pub record Summary (F : Type 0) : Type 0 where
  pub feature : String
  pub values : ℕ
  pub mean : F
  pub std : F
  pub p50 : F
  pub p95 : F
  pub greatest : F

module _ {F : Type 0} ⦃f : Float F⦄ where
  -- `arr.max()`, which raises for an empty array
  abbrev pub greatest_of : ⦃n : Numpy F⦄ → List F → Result F
  greatest_of ⦃n⦄ vals = if is_empty vals then err value_error else ok (n.amax vals)

  -- one line of the table, its columns in the order of the code
  unfoldable pub summary_of :
      ⦃n : Numpy F⦄ ⦃q : Percentiles F⦄ → String → List F → Result (Summary F)
  summary_of ⦃n⦄ ⦃q⦄ feature vals = do
    p50 ← q.percentile vals 50
    p95 ← q.percentile vals 95
    greatest ← greatest_of vals
    ok (record {
      feature = feature;
      values = length vals;
      mean = f.round (n.mean vals) 3;
      std = f.round (n.std vals) 3;
      p50 = f.round p50 3;
      p95 = f.round p95 3;
      greatest = f.round greatest 3;
    })

  -- The lines of the table; what a line raises leaves the loop.
  unfoldable pub summarize :
      ⦃n : Numpy F⦄ ⦃q : Percentiles F⦄ → Dict (List F) → Result (List (Summary F))
  summarize [] = ok []
  summarize ((feature, vals) ∷ stats) = do
    line ← summary_of feature vals
    lines ← summarize stats
    ok (line ∷ lines)
