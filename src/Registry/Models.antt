-- ===== src/Registry/Models.antt =====
-- registry/models.py, and the session of SQLAlchemy as an interface. The columns that the
-- database fills in (ids and times of creation) are left out.
use feature_store.Common.{ℕ, ◌≡◌, String, Bool, List, [], ◌∷◌, ◌++◌, filter, str_eq}
use feature_store.Common.Exec.{Exec, ok}

pub record FeatureDefinition : Type 0 where
  pub feature_name : String
  pub display_name : String
  pub description : String
  pub transform_logic : String
  pub window_type : String
  pub freshness_sla_seconds : ℕ
  pub owner : String
  pub version : String
  pub is_active : Bool

pub record FeatureLineage : Type 0 where
  pub feature_name : String
  pub upstream_source : String
  pub transform_step : String

pub record FeatureMetric (F : Type 0) : Type 0 where
  pub feature_name : String
  pub metric_type : String
  pub metric_value : F
  pub recorded_at : F

-- The queries that the code builds, and the changes that it makes to a session.
pub record Session (W F : Type 0) : Type 0 where
  -- the rows of `select(FeatureDefinition).where(feature_name == name)`
  pub select_named : String → Exec W (List FeatureDefinition)
  -- the active rows, ordered by their names
  pub select_active : Exec W (List FeatureDefinition)
  -- the rows of one feature and type of metric, the latest first, up to a limit
  pub select_metrics : String → String → ℕ → Exec W (List (FeatureMetric F))
  pub add_feature : FeatureDefinition → Exec W (Unit {0})
  pub add_lineage : FeatureLineage → Exec W (Unit {0})
  pub add_metric : FeatureMetric F → Exec W (Unit {0})
  pub flush : Exec W (Unit {0})
  pub commit : Exec W (Unit {0})

abbrev pub named : String → FeatureDefinition → Bool
named k f = str_eq f.feature_name k

-- The rows that a session sees, its own additions included, and what each call that returns does.
pub record SessionLaws (W F : Type 0) ⦃s : Session W F⦄ : Type 0 where
  pub features : W → List FeatureDefinition
  pub lineage : W → List FeatureLineage
  pub select_named_lem :
      (k : String) (w w' : W) (rows : List FeatureDefinition)
      → s.select_named k w ≡ (ok rows, w')
      → (rows ≡ filter (named k) (features w))
        × (features w' ≡ features w)
        × (lineage w' ≡ lineage w)
  pub add_feature_lem :
      (x : FeatureDefinition) (w w' : W)
      → s.add_feature x w ≡ (ok tt, w')
      → (features w' ≡ features w ++ x ∷ []) × (lineage w' ≡ lineage w)
  pub add_lineage_lem :
      (x : FeatureLineage) (w w' : W)
      → s.add_lineage x w ≡ (ok tt, w')
      → (features w' ≡ features w) × (lineage w' ≡ lineage w ++ x ∷ [])
  pub flush_lem :
      (w w' : W) → s.flush w ≡ (ok tt, w') → (features w' ≡ features w) × (lineage w' ≡ lineage w)
  pub commit_lem :
      (w w' : W) → s.commit w ≡ (ok tt, w') → (features w' ≡ features w) × (lineage w' ≡ lineage w)
