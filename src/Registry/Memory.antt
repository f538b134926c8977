-- ===== src/Registry/Memory.antt =====
-- Tables held in memory: a value of the interface `Session` at which its laws hold.
use feature_store.Common.{arith, str_eq, ◌&&◌, List, [], ◌∷◌, ◌++◌, filter, take}
use feature_store.Common.Exec.{ok, pure}
use feature_store.Registry.Models.{
  FeatureDefinition, FeatureLineage, FeatureMetric, Session, SessionLaws, named,
}

pub record Tables (F : Type 0) : Type 0 where
  pub features : List FeatureDefinition
  pub lineage : List FeatureLineage
  pub metrics : List (FeatureMetric F)

module _ {F : Type 0} where
  abbrev pub no_rows : Tables F
  no_rows = record { features = []; lineage = []; metrics = [] }

  instance abbrev pub tables_session : Session (Tables F) F
  tables_session = record {
    select_named = λ k w. (ok (filter (named k) w.features), w);
    select_active = λ w. (ok (filter (λ x. x.is_active) w.features), w);
    select_metrics = λ k t n w. (
      ok (take n (filter (λ x. str_eq x.feature_name k && str_eq x.metric_type t) w.metrics)),
      w,
    );
    add_feature = λ x w. (ok tt, record w { features = w.features ++ x ∷ [] });
    add_lineage = λ x w. (ok tt, record w { lineage = w.lineage ++ x ∷ [] });
    add_metric = λ x w. (ok tt, record w { metrics = x ∷ w.metrics });
    flush = pure tt;
    commit = pure tt;
  }

  pub tables-SessionLaws : SessionLaws (Tables F) F
  tables-SessionLaws = record {
    features = λ w. w.features;
    lineage = λ w. w.lineage;
    select_named_lem = λ k w w' rows h. ground (arith, h);
    add_feature_lem = λ x w w' h. ground (arith, h);
    add_lineage_lem = λ x w w' h. ground (arith, h);
    flush_lem = λ w w' h. ground (arith, h);
    commit_lem = λ w w' h. ground (arith, h);
  }
