-- ===== src/OfflineStore/Partitioning.antt =====
-- offline_store/partitioning.py
use feature_store.Common.{String, ◌⋅◌, Option, none, some, str_eq, if◌then◌else◌}
use feature_store.Spark.{Spark}
use feature_store.Streaming.Processor.{FullRow}
use feature_store.Streaming.DeltaSink.{StoredRow}

module _ {F : Type 0} (s : Spark F) where
  abbrev pub add_partition_columns : s.DataFrame (FullRow F) → s.DataFrame (StoredRow F)
  add_partition_columns df =
      s.select
        (λ r. record {
          row = r;
          event_date = s.to_date r.features.computed_at;
          user_prefix = s.substring r.features.user_id 1 3;
        })
        df

-- The filter for reads of the table, as a text; a prefix that is empty is as good as `None`.
abbrev pub partition_predicate : String → Option String → String
partition_predicate date_str none = "event_date = '" ⋅ date_str ⋅ "'"
partition_predicate date_str (some user_prefix) =
    let predicate = "event_date = '" ⋅ date_str ⋅ "'" in
    if str_eq user_prefix ""
    then predicate
    else predicate ⋅ " AND user_prefix = '" ⋅ user_prefix ⋅ "'"
