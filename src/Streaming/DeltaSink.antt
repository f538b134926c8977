-- ===== src/Streaming/DeltaSink.antt =====
-- streaming/delta_sink.py: a batch of rows, merged into the Delta table, or appended to the
-- fallback if that raises. The log lines are left out.
pub mod Laws
pub mod Kept
use feature_store.Common.{String, Bool, true, false, ◌&&◌, str_eq, ◌==◌, if◌then◌else◌}
use feature_store.Common.Exec.{Exec, ok, err, pure, ◌>>=◌}
use feature_store.Float.{Float}
use feature_store.Spark.{Spark}
use feature_store.Delta.{Delta, overwrite}
use feature_store.Streaming.Processor.{FullRow}

-- A row with the columns of its partition.
pub record StoredRow (F : Type 0) : Type 0 where
  pub row : FullRow F
  pub event_date : String
  pub user_prefix : String

-- "target.user_id = source.user_id AND target.event_date = source.event_date"
abbrev pub same_user_day : {F : Type 0} → StoredRow F → StoredRow F → Bool
same_user_day target source =
    str_eq target.row.features.user_id source.row.features.user_id
    && str_eq target.event_date source.event_date

module _ {W F T : Type 0} (s : Spark F) (d : Delta W (StoredRow F) T s.DataFrame) where
  unfoldable pub enriched : s.DataFrame (FullRow F) → s.DataFrame (StoredRow F)
  enriched batch_df =
      s.select
        (λ r. record {
          row = r;
          event_date = s.to_date r.features.computed_at;
          user_prefix = s.substring r.features.user_id 1 3;
        })
        batch_df

  -- the body of the `try`
  unfoldable pub write_table : s.DataFrame (StoredRow F) → Exec W (Unit {0})
  write_table rows = do
    there ← d.is_delta_table
    if there then d.merge same_user_day rows else d.save overwrite rows

  unfoldable pub write_features_to_delta : s.DataFrame (FullRow F) → Exec W (Unit {0})
  write_features_to_delta batch_df w =
      let rows = enriched batch_df in
      let (written, w') = write_table rows w in
      if s.size batch_df == 0
      then (ok tt, w)
      else elim written [ ok _ ↦ (ok tt, w') | err e ↦ d.append_parquet rows w' ]
