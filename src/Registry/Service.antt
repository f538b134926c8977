-- ===== src/Registry/Service.antt =====
-- registry/registry_service.py, and the endpoints of registry/router.py and
-- api/routers/metadata.py.
use feature_store.Common.{ℕ, ◌≡◌, arith, String, Option, none, some, List, [], ◌∷◌, filter}
use feature_store.Common.Exec.{
  Exec, Result, ok, err, other_error, http_exception, raise, pure, ◌>>=◌, ◌>>◌,
}
use feature_store.Tenacity.{Clock}
use feature_store.Registry.Models.{FeatureDefinition, FeatureMetric, Session, SessionLaws, named}

-- `scalar_one_or_none()`, which raises MultipleResultsFound
unfoldable pub scalar_one_or_none : {W A : Type 0} → List A → Exec W (Option A)
scalar_one_or_none [] = pure none
scalar_one_or_none (x ∷ []) = pure (some x)
scalar_one_or_none (x ∷ y ∷ xs) = raise other_error

pub record FeatureMetricCreate (F : Type 0) : Type 0 where
  pub feature_name : String
  pub metric_type : String
  pub metric_value : F

module _ {W F : Type 0} (s : Session W F) where
  abbrev pub get_all_features : Exec W (List FeatureDefinition)
  get_all_features = s.select_active

  pub get_feature : String → Exec W (Option FeatureDefinition)
  get_feature feature_name = s.select_named feature_name >>= scalar_one_or_none

  abbrev pub record_metric : ⦃c : Clock W F⦄ → FeatureMetricCreate F → Exec W (Unit {0})
  record_metric ⦃c⦄ metric =
      (λ w.
        s.add_metric
          (record {
            feature_name = metric.feature_name;
            metric_type = metric.metric_type;
            metric_value = metric.metric_value;
            recorded_at = c.time w;
          })
          w)
      >> s.commit

  abbrev pub get_recent_metrics : String → String → ℕ → Exec W (List (FeatureMetric F))
  get_recent_metrics feature_name metric_type limit =
      s.select_metrics feature_name metric_type limit

  pub found_or_404 : Option FeatureDefinition → Exec W FeatureDefinition
  found_or_404 none = raise (http_exception 404)
  found_or_404 (some feature) = pure feature

  -- `get_feature_detail` of the registry, and `get_feature_metadata` of the API
  pub get_feature_detail : String → Exec W FeatureDefinition
  get_feature_detail feature_name = get_feature feature_name >>= found_or_404

-- What a request for one feature gets, by the rows that have its name.
abbrev pub detail_of : List FeatureDefinition → Result FeatureDefinition
detail_of [] = err (http_exception 404)
detail_of (x ∷ []) = ok x
detail_of (x ∷ y ∷ xs) = err other_error

-- Where the database answers, a request for one feature gets the row of that name, 404 if there is
-- none, and an error of the server if there are several.
pub get_feature_detail_lem :
    {W F : Type 0} ⦃s : Session W F⦄ (laws : SessionLaws W F) (k : String) (w w' : W)
    (rows : List FeatureDefinition)
    → s.select_named k w ≡ (ok rows, w')
    → get_feature_detail s k w ≡ (detail_of (filter (named k) (laws.features w)), w')
unfolding get_feature_detail get_feature scalar_one_or_none found_or_404
get_feature_detail_lem ⦃s⦄ laws k w w' rows h =
    ground (arith, h, laws.select_named_lem k w w' rows h)
