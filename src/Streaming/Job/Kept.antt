-- ===== src/Streaming/Job/Kept.antt =====
-- What the two queries leave, in whatever order their batches come.
use feature_store.Common.{
  ℕ, ◌+◌, ◌<◌, ◌≡◌, refl, arith, Bool, true, false, List, [], ◌∷◌, Bool-cases, inl, inr, ltb,
  if◌then◌else◌,
}
use feature_store.Common.Exec.{Result, ok, err}
use feature_store.Float.{Float}
use feature_store.Redis.{Redis}
use feature_store.Tenacity.{Clock}
use feature_store.Spark.{Spark, SparkLaws}
use feature_store.Delta.{Delta, DeltaLaws}
use feature_store.Streaming.Processor.{FullRow}
use feature_store.Streaming.DeltaSink.{StoredRow, enriched, write_features_to_delta}
use feature_store.Streaming.DeltaSink.Kept.{stored, coming, write_keeps, write_adds}
use feature_store.Streaming.RedisSink.{RowLike}
use feature_store.Streaming.Job.{
  Job, Query, redis_sink, delta_sink, after_redis, after_delta, redis_batch_writer, take_batch,
  run_queries, started,
}

module _ {W F T : Type 0} {s : Spark F} {l : SparkLaws F s}
    {d : Delta W (StoredRow F) T s.DataFrame} (laws : DeltaLaws W (StoredRow F) T F s l d)
    (y : StoredRow F) where
  -- How many rows of the user and the day of `y` some batches have.
  abbrev pub in_batches : List (s.DataFrame (FullRow F)) → ℕ
  in_batches [] = 0
  in_batches (b ∷ bs) = coming laws y (enriched s d b) + in_batches bs

  abbrev Keeps : {V : Type 0} → Job V W (s.DataFrame (FullRow F)) → Type 0
  Keeps j = 0 < in_batches j.handled → 0 < stored laws y j.offline

  if-Keeps :
      {V : Type 0} (b : Bool) (j k : Job V W (s.DataFrame (FullRow F)))
      → Keeps j
      → Keeps k
      → Keeps (if b then j else k)
  if-Keeps true j k h i = h
  if-Keeps false j k h i = i

  module _ {V : Type 0} (j : Job V W (s.DataFrame (FullRow F))) where
    after_delta-Keeps :
        (b : s.DataFrame (FullRow F)) (x : Result (Unit {0}) × W)
        → write_features_to_delta s d b j.offline ≡ x
        → Keeps j
        → Keeps (after_delta j b x)
    after_delta-Keeps b (ok u, w) h k some_row =
        elim (Bool-cases (ltb 0 (coming laws y (enriched s d b)))) [
          | inl e ↦ write_adds laws y b j.offline w h (ground (arith, e))
          | inr e ↦ write_keeps laws y b j.offline w (ok u) h (k (ground (arith, e)))
        ]
    after_delta-Keeps b (err e, w) h k some_row =
        write_keeps laws y b j.offline w (err e) h (k some_row)

    after_redis-Keeps : (x : Result (Unit {0}) × V) → Keeps j → Keeps (after_redis j x)
    after_redis-Keeps (ok u, v) k = k
    after_redis-Keeps (err e, v) k = k

module _ {V W F T R : Type 0} ⦃r : Redis V⦄ ⦃f : Float F⦄ ⦃c : Clock V F⦄ {s : Spark F}
    {l : SparkLaws F s} {d : Delta W (StoredRow F) T s.DataFrame}
    (laws : DeltaLaws W (StoredRow F) T F s l d) (like : RowLike R F)
    (collect : s.DataFrame (FullRow F) → List R) (ttl : ℕ) where
  take_batch-Keeps :
      (y : StoredRow F) (q : Query) (b : s.DataFrame (FullRow F))
      (j : Job V W (s.DataFrame (FullRow F)))
      → Keeps laws y j
      → Keeps laws y (take_batch s d like collect ttl q b j)
  unfolding take_batch
  take_batch-Keeps y redis_sink b j k =
      if-Keeps laws y j.running _ j
        (after_redis-Keeps laws y j (redis_batch_writer s like collect ttl b j.online) k) k
  take_batch-Keeps y delta_sink b j k =
      if-Keeps laws y j.running _ j
        (after_delta-Keeps laws y j b (write_features_to_delta s d b j.offline) refl k) k

  run_queries-Keeps :
      (y : StoredRow F) (es : List (Query × s.DataFrame (FullRow F)))
      (j : Job V W (s.DataFrame (FullRow F)))
      → Keeps laws y j
      → Keeps laws y (run_queries s d like collect ttl es j)
  unfolding run_queries
  run_queries-Keeps y [] j k = k
  run_queries-Keeps y ((q, b) ∷ es) j k =
      run_queries-Keeps y es (take_batch s d like collect ttl q b j) (take_batch-Keeps y q b j k)

  -- However the batches of the two queries are interleaved, and whatever raises: a user's day of
  -- which a batch has come through the writer of the table is in the table or in the fallback.
  pub run_queries_kept :
      (es : List (Query × s.DataFrame (FullRow F))) (v : V) (w : W) (y : StoredRow F)
      → let j = run_queries s d like collect ttl es (started v w) in
        0 < in_batches laws y j.handled → 0 < stored laws y j.offline
  run_queries_kept es v w y = run_queries-Keeps y es (started v w) (λ none. absurd (omega arith))
