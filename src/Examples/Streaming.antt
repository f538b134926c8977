-- ===== src/Examples/Streaming.antt =====
-- Examples for the streaming job.
use feature_store.Common.{
  ℕ, ◌*◌, ◌≤◌, ◌≡◌, refl, arith, String, ◌&&◌, none, some, List, [], ◌∷◌, count, All, str_eq, ltb,
  if◌then◌else◌,
}
use feature_store.Float.Fixed.{Fixed, fixed_float, Fixed-OrderLaws, Fixed-ArithLaws}
use feature_store.Redis.Memory.{memory_redis}
use feature_store.Spark.{Spark, SparkLaws}
use feature_store.Spark.Rows.{Window, same_window, on_grid}
use feature_store.Spark.Memory.{memory_spark, memory-SparkLaws}
use feature_store.Streaming.Events.{Event, minutes, is_type}
use feature_store.Streaming.Features.{
  compute_txn_count_5m, compute_avg_spend_1h, compute_cart_abandon_ratio,
  compute_session_activity_rate, compute_product_interaction_freq, compute_all_features,
}
use feature_store.Streaming.Windows.{events_in}
use feature_store.Streaming.Counts.{Dated, IsCount, compute_txn_count_5m_lem}
use feature_store.Streaming.Rates.{IsRatio, compute_cart_abandon_ratio_lem}
use feature_store.Streaming.FanOut.{row_of, times, compute_all_features_rows}
use feature_store.Streaming.Sliding.{compute_all_features_fan_out}
use feature_store.Streaming.RedisSink.Laws.{Columns}
use feature_store.Examples.World.{tiny, memory_clock, ann}

-- every deviation is one millionth here
abbrev pub spark : Spark Fixed
spark = memory_spark (λ xs. some (tiny 1))

abbrev pub laws : SparkLaws Fixed spark
laws = memory-SparkLaws (λ xs. some (tiny 1))

abbrev pub event_at : ℕ → String → Event Fixed
event_at minute event_type = record {
  user_id = ann;
  session_id = some "ses_1";
  event_type = some event_type;
  timestamp = some (minutes minute);
  transaction_amount = some (tiny 5);
}

-- two purchases and an addition to the cart in five minutes of the second day
abbrev pub events : List (Event Fixed)
events = event_at 2_001 "add_to_cart" ∷ event_at 2_002 "purchase" ∷ event_at 2_003 "purchase" ∷ []

abbrev pub five : Window
five = record { start = minutes 2_000; end = minutes 2_005 }

events-Dated : Dated laws events
unfolding memory-SparkLaws
events-Dated = (refl, (refl, (refl, tt)))

compute_txn_count_5m_lem_example :
    All (IsCount laws "purchase" (laws.rows events)) (laws.rows (compute_txn_count_5m spark events))
    × ((u : String) (w : Window)
        → count
            (λ r. str_eq r.user_id u && same_window w r.window)
            (laws.rows (compute_txn_count_5m spark events))
          ≡ (if on_grid (minutes 5) (minutes 5) w
                && ltb 0 (events_in (is_type "purchase") u w (laws.rows events))
              then 1
              else 0))
compute_txn_count_5m_lem_example = compute_txn_count_5m_lem laws events events-Dated

compute_cart_abandon_ratio_lem_example :
    All (IsRatio laws (laws.rows events)) (laws.rows (compute_cart_abandon_ratio spark events))
compute_cart_abandon_ratio_lem_example =
    compute_cart_abandon_ratio_lem laws Fixed-OrderLaws Fixed-ArithLaws events events-Dated

compute_all_features_rows_example :
    count (row_of ann five) (laws.rows (compute_all_features spark (tiny 9) events))
    ≡ 1
      * times laws ann (compute_avg_spend_1h spark events)
      * times laws ann (compute_session_activity_rate spark events)
      * times laws ann (compute_cart_abandon_ratio spark events)
      * times laws ann (compute_product_interaction_freq spark events)
unfolding memory-SparkLaws
compute_all_features_rows_example =
    compute_all_features_rows laws (tiny 9) events ann five events-Dated

compute_all_features_fan_out_example :
    12 ≤ count (row_of ann five) (laws.rows (compute_all_features spark (tiny 9) events))
unfolding memory-SparkLaws
compute_all_features_fan_out_example =
    compute_all_features_fan_out laws (tiny 9) events ann five events-Dated refl (omega arith)

-- one row of each sort: all columns null, and rows that have no `get`
abbrev columns : Columns Fixed
columns = record { user = ann; column = λ k. none }
