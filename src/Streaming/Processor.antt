-- ===== src/Streaming/Processor.antt =====
-- streaming/feature_processor.py: the frame that both sinks get, from the events of the topic. The
-- Kafka source, the watermark and the two queries with their triggers are Spark's.
use feature_store.Common.{String, Option}
use feature_store.Float.{Float}
use feature_store.Spark.{Spark}
use feature_store.Streaming.Events.{Event}
use feature_store.Streaming.Features.{
  FeatureRow, drop_window, joined_null, fill, compute_all_features,
}
use feature_store.Streaming.Anomaly.{compute_anomaly_score}

-- A row with its score.
pub record FullRow (F : Type 0) : Type 0 where
  pub features : FeatureRow F
  pub anomaly_score : F

module _ {F : Type 0} ⦃f : Float F⦄ where
  -- `.fillna({"anomaly_score": 0.0})`
  abbrev pub with_score : FeatureRow F × Option (String × Option F) → FullRow F
  with_score (r, score) = record { features = r; anomaly_score = fill (joined_null score) }

  module _ (s : Spark F) where
    unfoldable pub join_anomaly :
        s.DataFrame (FeatureRow F) → s.DataFrame (String × Option F) → s.DataFrame (FullRow F)
    join_anomaly features_df anomaly_df =
        s.select with_score (s.left_join (λ r. r.user_id) (λ t. t.0) features_df anomaly_df)

    unfoldable pub full_features : F → s.DataFrame (Event F) → s.DataFrame (FullRow F)
    full_features current events_df =
        join_anomaly (compute_all_features s current events_df)
          (s.select drop_window (compute_anomaly_score s events_df))
