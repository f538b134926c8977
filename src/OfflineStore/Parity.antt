-- ===== src/OfflineStore/Parity.antt =====
-- The backfill against the streaming job.
use mathlib.Core.Path.{subst}
use feature_store.Common.{◌≡◌, ap, ◌∙◌, String, Option, List, map}
use feature_store.Float.{Float, nought}
use feature_store.Spark.{Spark, SparkLaws}
use feature_store.Spark.Rows.{SameRows, flip_rows, chain_rows, SameRows-map, same_rows, join_rows}
use feature_store.Streaming.Events.{Event}
use feature_store.Streaming.Features.{
  FeatureRow, Joined, drop_window, to_row, join_features, compute_txn_count_5m,
  compute_avg_spend_1h, compute_session_activity_rate, compute_cart_abandon_ratio,
  compute_product_interaction_freq, compute_all_features,
}
use feature_store.Streaming.Anomaly.{compute_anomaly_score}
use feature_store.Streaming.Processor.{FullRow, with_score, join_anomaly, full_features}
use feature_store.OfflineStore.Backfill.{at_window_start, backfill_features}
use feature_store.Spark.Joins.{SameRows-join_rows, on_first, join_rows-map, map-map}

rows_of_eq : {A : Type 0} {xs ys : List A} → xs ≡ ys → SameRows xs ys
rows_of_eq {xs = xs} e = subst (SameRows xs) e (same_rows xs)

module _ {F : Type 0} ⦃f : Float F⦄ where
  -- A row with the time of its computation put aside.
  abbrev pub untimed : FullRow F → FullRow F
  untimed r = record r { features = record r.features { computed_at = nought } }

  -- what is left of a joined row of features and of its score
  abbrev untimed_row : Joined F × Option (String × Option F) → FullRow F
  untimed_row (j, score) = untimed (with_score (to_row nought j, score))

module _ {F : Type 0} ⦃f : Float F⦄ {s : Spark F} (l : SparkLaws F s) where
  abbrev frames : s.DataFrame (Event F) → s.DataFrame (Joined F)
  frames df =
      join_features s (compute_txn_count_5m s df) (compute_avg_spend_1h s df)
        (compute_session_activity_rate s df) (compute_cart_abandon_ratio s df)
        (compute_product_interaction_freq s df)

  abbrev scores : s.DataFrame (Event F) → s.DataFrame (String × Option F)
  scores df = s.select drop_window (compute_anomaly_score s df)

  -- What the full frame has, whenever it is computed.
  full_features-untimed :
      (current : F) (df : s.DataFrame (Event F))
      → SameRows (map untimed (l.rows (full_features s current df))) (
          map untimed_row (
            join_rows
              (λ j. j.0.0.0.0.user_id)
              (λ t. t.0)
              (l.rows (frames df))
              (l.rows (scores df))))
  unfolding full_features join_anomaly compute_all_features
  full_features-untimed current df =
      let features = compute_all_features s current df in
      let js = l.rows (frames df) in
      let ts = l.rows (scores df) in
      let key = λ (r : FeatureRow F). r.user_id in
      let of = λ (t : String × Option F). t.0 in
      let base = λ (j : Joined F). j.0.0.0.0.user_id in
      let selected = l.select_lem with_score (s.left_join key of features (scores df)) in
      let same =
        chain_rows (l.join_lem key of features (scores df))
          (SameRows-join_rows key of ts (l.select_lem (to_row current) (frames df))) in
      let moved : SameRows (join_rows key of (map (to_row current) js) ts)
          (map (on_first (to_row current) key of) (join_rows base of js ts)) =
        rows_of_eq (join_rows-map (to_row current) key of js ts) in
      chain_rows (SameRows-map untimed selected) (
        chain_rows (SameRows-map untimed (SameRows-map with_score (chain_rows same moved))) (
          rows_of_eq (
            ap (map untimed)
              (map-map with_score (on_first (to_row current) key of) (join_rows base of js ts))
            ∙ map-map untimed (λ t. with_score (on_first (to_row current) key of t))
                (join_rows base of js ts))))

  -- What the backfill makes of a frame of events, and what the definitions of the streaming job make
  -- of the same frame, read as a batch at whatever time, are the same rows as often, but for the
  -- time of computation.
  pub backfill_features-full_features :
      (started running : F) (events_df : s.DataFrame (Event F))
      → SameRows
          (map untimed (l.rows (backfill_features s started events_df)))
          (map untimed (l.rows (full_features s running events_df)))
  unfolding backfill_features at_window_start full_features join_anomaly
  backfill_features-full_features started running events_df =
      let written = full_features s started events_df in
      chain_rows (SameRows-map untimed (l.select_lem (at_window_start s) written)) (
        chain_rows (rows_of_eq (map-map untimed (at_window_start s) (l.rows written))) (
          chain_rows (full_features-untimed started events_df)
            (flip_rows (full_features-untimed running events_df))))
