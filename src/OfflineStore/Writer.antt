-- ===== src/OfflineStore/Writer.antt =====
-- offline_store/delta_writer.py: `write_features`. `optimize_table` is one statement of SQL, which
-- changes the layout of the files and no row.
use feature_store.Common.Exec.{Exec}
use feature_store.Spark.{Spark}
use feature_store.Delta.{Delta, Mode}
use feature_store.Streaming.Processor.{FullRow}
use feature_store.Streaming.DeltaSink.{StoredRow}

module _ {W F T : Type 0} (s : Spark F) (d : Delta W (StoredRow F) T s.DataFrame) where
  unfoldable pub with_partitions : s.DataFrame (FullRow F) → s.DataFrame (StoredRow F)
  with_partitions df =
      s.select
        (λ r. record {
          row = r;
          event_date = s.to_date r.features.computed_at;
          user_prefix = s.substring r.features.user_id 1 3;
        })
        df

  unfoldable pub write_features : s.DataFrame (FullRow F) → Mode → Exec W (Unit {0})
  write_features df mode = d.save mode (with_partitions df)
