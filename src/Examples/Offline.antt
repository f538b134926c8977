-- ===== src/Examples/Offline.antt =====
-- Examples for the Delta table: the sink, the reads at a point in time, and the backfill.
use feature_store.Common.{ℕ, ◌≤◌, ◌≡◌, refl, arith, some, List, [], ◌∷◌, count, map, filter, ◌⊎◌}
use feature_store.Float.Fixed.{Fixed, fixed_float, print}
use feature_store.Spark.Rows.{SameRows}
use feature_store.Spark.Memory.{memory-SparkLaws}
use feature_store.Delta.{Delta, DeltaLaws, append}
use feature_store.Delta.Memory.{Table, no_table, memory_delta, memory-DeltaLaws}
use feature_store.Streaming.Processor.{FullRow, full_features}
use feature_store.Streaming.DeltaSink.{
  StoredRow, same_user_day, enriched, write_table, write_features_to_delta,
}
use feature_store.Streaming.DeltaSink.Laws.{
  table, in_partition, Merged, Created, FellBack, write_features_to_delta_kept,
  write_features_to_delta_once, write_features_to_delta_falls_back,
}
use feature_store.OfflineStore.Writer.{with_partitions, write_features}
use feature_store.OfflineStore.Reader.{
  training_row, read_option, of_cohort, read_features_at, read_features_for_training,
}
use feature_store.OfflineStore.TimeTravel.{in_cohort, read_features_for_training_lem}
use feature_store.OfflineStore.Backfill.{backfill_features}
use feature_store.OfflineStore.Parity.{untimed, backfill_features-full_features}
use feature_store.Examples.World.{tiny, ann}
use feature_store.Examples.Streaming.{spark, laws, events}

abbrev pub Stored : Type 0
Stored = StoredRow Fixed

abbrev pub delta : Delta (Table Stored) Stored ℕ spark.DataFrame
delta = memory_delta

abbrev pub delta_laws : DeltaLaws (Table Stored) Stored ℕ Fixed spark laws delta
delta_laws = memory-DeltaLaws (λ xs. some (tiny 1))

abbrev pub row_with : ℕ → FullRow Fixed
row_with n = record {
  features = record {
    user_id = ann;
    window_start = 0;
    window_end = 300_000_000;
    computed_at = tiny 7;
    txn_count_5m = tiny n;
    avg_spend_1h = tiny 2;
    session_activity_rate = tiny 3;
    cart_abandon_ratio = tiny 4;
    product_interaction_freq = tiny 5;
  };
  anomaly_score = tiny 6;
}

-- the table after a first batch, and after a second one for the same user and day
abbrev pub first_batch : List (FullRow Fixed)
first_batch = row_with 1 ∷ []

abbrev pub second_batch : List (FullRow Fixed)
second_batch = row_with 8 ∷ []

abbrev pub twice : List (FullRow Fixed)
twice = row_with 8 ∷ row_with 9 ∷ []

abbrev w₁ : Table Stored
w₁ = (write_features_to_delta spark delta first_batch no_table).1

abbrev w₂ : Table Stored
w₂ = (write_features_to_delta spark delta second_batch w₁).1

abbrev w₃ : Table Stored
w₃ = (write_features_to_delta spark delta twice w₁).1

write_features_to_delta_kept_example :
    (kept : List Stored) × SameRows kept (map (in_partition delta_laws) (laws.rows second_batch))
    × (Merged delta_laws kept w₁ w₂
        ⊎ (Created delta_laws kept w₁ w₂ ⊎ FellBack delta_laws kept w₁ w₂))
unfolding memory-SparkLaws write_features_to_delta write_table enriched print
write_features_to_delta_kept_example =
    write_features_to_delta_kept delta_laws second_batch w₁ w₂ (omega arith) refl

abbrev pub stored_row : Stored
stored_row = record { row = row_with 8; event_date = "+111"; user_prefix = "usr" }

write_features_to_delta_once_example : count (same_user_day stored_row) (table delta_laws w₂) ≤ 1
unfolding memory-SparkLaws memory-DeltaLaws write_features_to_delta write_table enriched print
write_features_to_delta_once_example =
    write_features_to_delta_once delta_laws second_batch w₁ w₂ stored_row (omega arith)
      (omega arith) (omega arith) refl

write_features_to_delta_falls_back_example :
    FellBack delta_laws (laws.rows (enriched spark delta twice)) w₁ w₃
unfolding memory-SparkLaws memory-DeltaLaws write_features_to_delta write_table enriched print
write_features_to_delta_falls_back_example =
    write_features_to_delta_falls_back delta_laws twice w₁ w₃ (omega arith) refl refl refl

-- the table after an append, and what a read before it and two reads after it return
abbrev w₄ : Table Stored
w₄ = (write_features spark delta second_batch append w₁).1

abbrev read_before : List Stored
read_before = w₁.rows_at 1

abbrev read_after : List Stored
read_after = w₄.rows_at 1

abbrev read_newest : List Stored
read_newest = w₄.rows_at 2

read_features_for_training_lem_example :
    (w₄ ≡ w₄)
    × SameRows
        (laws.rows (map training_row (filter (in_cohort (some (ann ∷ []))) (w₄.rows_at 1))))
        (map training_row (
          filter
            (in_cohort (some (ann ∷ [])))
            (delta_laws.rows_at w₄ (delta_laws.version_at w₄ 1))))
unfolding memory-SparkLaws memory-DeltaLaws write_features_to_delta write_table enriched print
    write_features with_partitions read_features_at read_features_for_training read_option of_cohort
read_features_for_training_lem_example =
    read_features_for_training_lem delta_laws 1 (some (ann ∷ []))
      (map training_row (filter (in_cohort (some (ann ∷ []))) (w₄.rows_at 1))) w₄ w₄ refl

backfill_features-full_features_example :
    SameRows
      (map untimed (laws.rows (backfill_features spark (tiny 1) events)))
      (map untimed (laws.rows (full_features spark (tiny 9) events)))
backfill_features-full_features_example =
    backfill_features-full_features laws (tiny 1) (tiny 9) events
