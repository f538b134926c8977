-- ===== src/Streaming/Job.antt =====
-- streaming/feature_processor.py: `run`, from the start of its two queries on. Each query hands
-- its batches to its own writer, in whatever order Spark's threads come to run; a writer that
-- raises ends its query, and `awaitAnyTermination` then ends the job.
pub mod Kept
pub mod Stops
use feature_store.Common.{ℕ, Bool, true, false, List, [], ◌∷◌, if◌then◌else◌}
use feature_store.Common.Exec.{Exec, Result, ok, err}
use feature_store.Float.{Float}
use feature_store.Redis.{Redis}
use feature_store.Tenacity.{Clock}
use feature_store.Spark.{Spark}
use feature_store.Delta.{Delta}
use feature_store.Streaming.Processor.{FullRow}
use feature_store.Streaming.DeltaSink.{StoredRow, write_features_to_delta}
use feature_store.Streaming.RedisSink.{RowLike, write_features_to_redis}

-- The server, the table's storage, whether the job runs, and the batches that the writer of the
-- table has come through with, the last one first.
pub record Job (V W B : Type 0) : Type 0 where
  pub online : V
  pub offline : W
  pub running : Bool
  pub handled : List B

abbrev pub redis_batch_writer :
    {V F R : Type 0} ⦃r : Redis V⦄ ⦃f : Float F⦄ ⦃c : Clock V F⦄ (s : Spark F)
    → RowLike R F
    → (s.DataFrame (FullRow F) → List R)
    → ℕ
    → s.DataFrame (FullRow F)
    → Exec V (Unit {0})
redis_batch_writer s like collect ttl batch_df = write_features_to_redis like ttl (collect batch_df)

abbrev pub delta_batch_writer :
    {W F T : Type 0} (s : Spark F)
    → Delta W (StoredRow F) T s.DataFrame
    → s.DataFrame (FullRow F)
    → Exec W (Unit {0})
delta_batch_writer s d batch_df = write_features_to_delta s d batch_df

-- which of the two queries a batch is of
pub data Query : Type 0 where
  redis_sink delta_sink : Query

module _ {V W B : Type 0} where
  -- The job after a writer has returned or raised.
  abbrev pub after_redis : Job V W B → Result (Unit {0}) × V → Job V W B
  after_redis j (ok _, v) = record j { online = v }
  after_redis j (err e, v) = record j { online = v; running = false }

  abbrev pub after_delta : Job V W B → B → Result (Unit {0}) × W → Job V W B
  after_delta j batch_df (ok _, w) = record j { offline = w; handled = batch_df ∷ j.handled }
  after_delta j batch_df (err e, w) = record j { offline = w; running = false }

module _ {V W F T R : Type 0} ⦃r : Redis V⦄ ⦃f : Float F⦄ ⦃c : Clock V F⦄ (s : Spark F)
    (d : Delta W (StoredRow F) T s.DataFrame) (like : RowLike R F)
    (collect : s.DataFrame (FullRow F) → List R) (ttl : ℕ) where
  -- One batch of one of the queries; when the job has ended there are no more.
  unfoldable pub take_batch :
      Query
      → s.DataFrame (FullRow F)
      → Job V W (s.DataFrame (FullRow F))
      → Job V W (s.DataFrame (FullRow F))
  take_batch redis_sink batch_df j =
      if j.running
      then after_redis j (redis_batch_writer s like collect ttl batch_df j.online)
      else j
  take_batch delta_sink batch_df j =
      if j.running then after_delta j batch_df (delta_batch_writer s d batch_df j.offline) else j

  -- The batches in the order in which the threads of the queries take them.
  unfoldable pub run_queries :
      List (Query × s.DataFrame (FullRow F))
      → Job V W (s.DataFrame (FullRow F))
      → Job V W (s.DataFrame (FullRow F))
  run_queries [] j = j
  run_queries ((q, batch_df) ∷ rest) j = run_queries rest (take_batch q batch_df j)

-- the job when its queries have been started
abbrev pub started : {V W B : Type 0} → V → W → Job V W B
started v w = record { online = v; offline = w; running = true; handled = [] }
