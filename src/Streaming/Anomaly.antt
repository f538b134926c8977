-- ===== src/Streaming/Anomaly.antt =====
-- streaming/anomaly_scorer.py: the Z-score of the mean purchase of five minutes against the mean
-- and the deviation of 24 hours.
use feature_store.Common.{String, Option, none, some, if◌then◌else◌}
use feature_store.Float.{Float, nought}
use feature_store.Spark.{Spark}
use feature_store.Spark.Rows.{Windowed}
use feature_store.Streaming.Events.{Event, minutes, is_type, windows_of, present}
use feature_store.Streaming.Features.{drop_window, with_value}

pub record Baseline (F : Type 0) : Type 0 where
  pub mean_24h : Option F
  pub std_24h : Option F

module _ {F : Type 0} ⦃f : Float F⦄ where
  -- `F.abs((avg_5m - mean) / (F.coalesce(std, 1.0) + 1e-6))`: null where `avg_5m` is, and where the
  -- divisor is zero
  abbrev pub z_score : Option F → F → Option F → Option F
  z_score none mean std = none
  z_score (some x) mean std =
      let spread = f.add (elim std [ none ↦ f.lit 1 0 | some d ↦ d ]) (f.lit 1 6) in
      if f.eq spread nought then none else some (f.magnitude (f.div (f.sub x mean) spread))

  -- `F.when(mean_24h is not null, ...).otherwise(0.0)`, for a row of the join
  abbrev pub anomaly_score : Option F → Option (String × Baseline F) → Option F
  anomaly_score avg_5m none = some nought
  anomaly_score avg_5m (some (u, b)) = elim b.mean_24h [
    | none ↦ some nought
    | some mean ↦ z_score avg_5m mean b.std_24h
  ]

  abbrev pub scored_row : Windowed (Option F) × Option (String × Baseline F) → Windowed (Option F)
  scored_row (r, b) = with_value (λ avg_5m. anomaly_score avg_5m b) r

  module _ (s : Spark F) where
    -- the reference of 24 hours, sliding by 5 minutes
    abbrev pub reference_stats : s.DataFrame (Event F) → s.DataFrame (Windowed (Baseline F))
    reference_stats purchases =
        s.group_by (λ e. e.user_id) (windows_of s (minutes 1440) (minutes 5))
          (λ es. record {
            mean_24h = s.avg (present (λ e. e.transaction_amount) es);
            std_24h = s.stddev (present (λ e. e.transaction_amount) es);
          })
          purchases

    abbrev pub current_average : s.DataFrame (Event F) → s.DataFrame (Windowed (Option F))
    current_average purchases =
        s.group_by (λ e. e.user_id) (windows_of s (minutes 5) (minutes 5))
          (λ es. s.avg (present (λ e. e.transaction_amount) es)) purchases

    abbrev pub compute_anomaly_score : s.DataFrame (Event F) → s.DataFrame (Windowed (Option F))
    compute_anomaly_score df =
        let purchases = s.where_ (is_type "purchase") df in
        s.select scored_row (
          s.left_join (λ r. r.user_id) (λ t. t.0) (current_average purchases)
            (s.select drop_window (reference_stats purchases)))
