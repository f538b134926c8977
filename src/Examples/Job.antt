-- ===== src/Examples/Job.antt =====
-- Examples for the streaming job: the two queries over one table and one server in memory.
use feature_store.Common.{◌<◌, ◌≡◌, refl, arith, true, false, List, [], ◌∷◌, any}
use feature_store.Common.Exec.{ok, err, other_error}
use feature_store.Float.Fixed.{Fixed, fixed_float, print}
use feature_store.Redis.Memory.{empty, memory_redis}
use feature_store.Spark.Memory.{memory-SparkLaws}
use feature_store.Delta.Memory.{no_table, memory-DeltaLaws}
use feature_store.Streaming.Processor.{FullRow}
use feature_store.Streaming.DeltaSink.{enriched, write_table, write_features_to_delta}
use feature_store.Streaming.DeltaSink.Kept.{stored}
use feature_store.Streaming.RedisSink.{
  RowLike, write_features_to_redis, sink_commands, sink_payload, sink_texts,
}
use feature_store.Streaming.Job.{Query, redis_sink, delta_sink, take_batch, run_queries, started}
use feature_store.Streaming.Job.Kept.{run_queries_kept}
use feature_store.Streaming.Job.Stops.{has_row, run_queries_no_get}
use feature_store.Examples.World.{memory_clock}
use feature_store.Examples.Streaming.{spark}
use feature_store.Examples.Offline.{delta, delta_laws, first_batch, second_batch, twice, stored_row}

-- rows of Spark: fields by index, and no `get`
abbrev spark_row : RowLike (FullRow Fixed) Fixed
spark_row = record { user_id = λ x. ok x.features.user_id; get = λ x column. err other_error }

abbrev batches : List (Query × List (FullRow Fixed))
batches =
    (delta_sink, first_batch)
    ∷ (delta_sink, twice)
    ∷ (redis_sink, second_batch)
    ∷ (delta_sink, second_batch)
    ∷ []

run_queries_kept_example :
    0
    < stored delta_laws stored_row
        (run_queries spark delta spark_row (λ x. x) 300 batches (started empty no_table)).offline
unfolding memory-SparkLaws memory-DeltaLaws run_queries take_batch write_features_to_delta
    write_table enriched print write_features_to_redis sink_commands sink_payload sink_texts
run_queries_kept_example =
    run_queries_kept delta_laws spark_row (λ x. x) 300 batches empty no_table stored_row
      (omega arith)

run_queries_no_get_example :
    let j = run_queries spark delta spark_row (λ x. x) 300 batches (started empty no_table) in
    (j.online ≡ empty) × (any (has_row (λ x. x)) batches ≡ true → j.running ≡ false)
run_queries_no_get_example =
    run_queries_no_get spark delta spark_row (λ x. x) 300 other_error
      (λ x. (x.features.user_id, refl)) (λ x column. refl) batches (started empty no_table)
