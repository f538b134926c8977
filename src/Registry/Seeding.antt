-- ===== src/Registry/Seeding.antt =====
-- registry/seed_data.py
pub mod Planted
pub mod Laws
use feature_store.Common.{ℕ, String, Bool, true, false, Option, none, some, List, [], ◌∷◌}
use feature_store.Common.Exec.{Exec, Result, ok, err, pure, ◌>>=◌, ◌>>◌}
use feature_store.Registry.Models.{FeatureDefinition, FeatureLineage, Session}
use feature_store.Registry.Service.{scalar_one_or_none}

-- A seed: the row, and the source and step of each line of its lineage.
pub record Seed : Type 0 where
  pub feature : FeatureDefinition
  pub lineage : List (String × String)

-- FEATURE_SEEDS
abbrev pub feature_seeds : List Seed
feature_seeds =
    record {
      feature = record {
        feature_name = "txn_count_5m";
        display_name = "Transaction Count (5 min)";
        description = "Number of purchase transactions in the last 5-minute tumbling window.";
        transform_logic = "COUNT(event_type='purchase') OVER TUMBLING WINDOW 5 MINUTES";
        window_type = "tumbling_5m";
        freshness_sla_seconds = 60;
        owner = "ml-platform";
        version = "1.0";
        is_active = true;
      };
      lineage =
          ("kafka:ecommerce.events.raw", "filter event_type=purchase")
          ∷ ("pyspark:structured_streaming", "count_window_5m")
          ∷ [];
    }
    ∷ record {
      feature = record {
        feature_name = "avg_spend_1h";
        display_name = "Average Spend (1 hour)";
        description = "Average purchase transaction amount in a sliding 1-hour window.";
        transform_logic =
            "AVG(transaction_amount WHERE event_type='purchase') OVER SLIDING WINDOW 1H/5MIN";
        window_type = "sliding_1h";
        freshness_sla_seconds = 300;
        owner = "ml-platform";
        version = "1.0";
        is_active = true;
      };
      lineage =
          ("kafka:ecommerce.events.raw", "filter event_type=purchase")
          ∷ ("pyspark:structured_streaming", "avg_window_1h")
          ∷ [];
    }
    ∷ record {
      feature = record {
        feature_name = "session_activity_rate";
        display_name = "Session Activity Rate (5 min)";
        description = "Ratio of total events to distinct sessions in the last 5 minutes.";
        transform_logic =
            "COUNT(events) / COUNT(DISTINCT session_id) OVER TUMBLING WINDOW 5 MINUTES";
        window_type = "tumbling_5m";
        freshness_sla_seconds = 60;
        owner = "ml-platform";
        version = "1.0";
        is_active = true;
      };
      lineage =
          ("kafka:ecommerce.events.raw", "all_events")
          ∷ ("pyspark:structured_streaming", "session_rate_5m")
          ∷ [];
    }
    ∷ record {
      feature = record {
        feature_name = "cart_abandon_ratio";
        display_name = "Cart Abandonment Ratio (30 min)";
        description = "Fraction of add-to-cart events not followed by a purchase in 30 minutes.";
        transform_logic =
            "add_to_cart_count_without_purchase / total_add_to_cart OVER TUMBLING 30 MINUTES";
        window_type = "tumbling_30m";
        freshness_sla_seconds = 300;
        owner = "ml-platform";
        version = "1.0";
        is_active = true;
      };
      lineage =
          ("kafka:ecommerce.events.raw", "filter add_to_cart + purchase")
          ∷ ("pyspark:structured_streaming", "cart_abandon_30m")
          ∷ [];
    }
    ∷ record {
      feature = record {
        feature_name = "product_interaction_freq";
        display_name = "Product Interaction Frequency (1 hour)";
        description = "Number of product page views in the last 1-hour tumbling window.";
        transform_logic = "COUNT(event_type='page_view') OVER TUMBLING WINDOW 1 HOUR";
        window_type = "tumbling_1h";
        freshness_sla_seconds = 300;
        owner = "ml-platform";
        version = "1.0";
        is_active = true;
      };
      lineage =
          ("kafka:ecommerce.events.raw", "filter page_view")
          ∷ ("pyspark:structured_streaming", "pageview_count_1h")
          ∷ [];
    }
    ∷ record {
      feature = record {
        feature_name = "anomaly_score";
        display_name = "Transaction Anomaly Score (5 min)";
        description =
            "Z-score of current transaction amount vs 24-hour rolling mean/stddev. High values indicate potential fraud.";
        transform_logic = "(avg_txn_5m - mean_24h) / stddev_24h";
        window_type = "tumbling_5m";
        freshness_sla_seconds = 60;
        owner = "fraud-detection";
        version = "1.0";
        is_active = true;
      };
      lineage =
          ("kafka:ecommerce.events.raw", "filter purchase")
          ∷ ("pyspark:structured_streaming", "zscore_24h")
          ∷ [];
    }
    ∷ []

module _ {W F : Type 0} (s : Session W F) where
  unfoldable pub add_steps : String → List (String × String) → Exec W (Unit {0})
  add_steps feature_name [] = pure tt
  add_steps feature_name ((source, step) ∷ steps) =
      s.add_lineage
        (record { feature_name = feature_name; upstream_source = source; transform_step = step })
      >> add_steps feature_name steps

  -- `if existing.scalar_one_or_none(): continue`, and the additions otherwise
  unfoldable pub add_missing : Seed → Option FeatureDefinition → Exec W (Unit {0})
  add_missing seed (some _) = pure tt
  add_missing seed none =
      s.add_feature seed.feature >> s.flush >> add_steps seed.feature.feature_name seed.lineage

  unfoldable pub seed_one : Seed → Exec W (Unit {0})
  seed_one seed =
      s.select_named seed.feature.feature_name >>= scalar_one_or_none >>= add_missing seed

  unfoldable pub seed_all : List Seed → Exec W (Unit {0})
  seed_all [] = pure tt
  seed_all (seed ∷ seeds) = seed_one seed >> seed_all seeds

  unfoldable pub seed_features : List Seed → Exec W (Unit {0})
  seed_features seeds = seed_all seeds >> s.commit
