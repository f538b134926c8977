-- ===== src/OfflineStore/Backfill.antt =====
-- offline_store/backfill.py: the same transforms as the streaming job, over the events of a period.
-- The batch read of the topic is Spark's.
use feature_store.Common.{ℕ, String, Option}
use feature_store.Common.Exec.{Exec}
use feature_store.Float.{Float}
use feature_store.Spark.{Spark}
use feature_store.Delta.{Delta, append}
use feature_store.Streaming.Events.{Event}
use feature_store.Streaming.Features.{
  FeatureRow, drop_window, joined_null, fill, compute_all_features,
}
use feature_store.Streaming.Anomaly.{compute_anomaly_score}
use feature_store.Streaming.Processor.{FullRow}
use feature_store.Streaming.Source.{FromJson, backfill_events_df}
use feature_store.Streaming.DeltaSink.{StoredRow}
use feature_store.OfflineStore.Writer.{write_features}

module _ {F : Type 0} ⦃f : Float F⦄ (s : Spark F) where
  -- `computed_at` becomes the start of the window
  unfoldable pub at_window_start : FullRow F → FullRow F
  at_window_start r = record r {
    features = record r.features { computed_at = s.unix_timestamp r.features.window_start };
  }

  -- the columns of a joined row, `.fillna({"anomaly_score": 0.0})`
  abbrev pub backfill_row : FeatureRow F × Option (String × Option F) → FullRow F
  backfill_row (r, score) = record { features = r; anomaly_score = fill (joined_null score) }

  -- `full_df`, with a join of its own
  unfoldable pub backfill_features : F → s.DataFrame (Event F) → s.DataFrame (FullRow F)
  backfill_features current events_df = s.select at_window_start (
      s.select backfill_row (
        s.left_join (λ r. r.user_id) (λ t. t.0) (compute_all_features s current events_df)
          (s.select drop_window (compute_anomaly_score s events_df))))

  -- from the messages of the topic on
  abbrev pub run_backfill :
      {W T B : Type 0}
      → Delta W (StoredRow F) T s.DataFrame
      → FromJson F B
      → F
      → ℕ
      → ℕ
      → s.DataFrame B
      → Exec W (Unit {0})
  run_backfill d j current start end raw_df =
      write_features s d (backfill_features current (backfill_events_df s j start end raw_df))
        append
