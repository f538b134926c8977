-- ===== src/Api/Features.antt =====
-- api/routers/features.py: `GET /features/{user_id}`
pub mod Serving
use feature_store.Common.{
  ℕ, String, Bool, true, false, Option, none, some, List, [], ◌∷◌, str_eq, is_empty, if◌then◌else◌,
}
use feature_store.Common.Dict.{Dict, lookup}
use feature_store.Common.Exec.{Exec, Result, ok, err, http_exception, pure, raise, lift, ◌>>=◌}
use feature_store.Float.{Float}
use feature_store.Redis.{Redis}
use feature_store.Tenacity.{Clock}
use feature_store.OnlineStore.KeySchema.{feature_key}
use feature_store.Api.Vector.{
  FeatureVector, FeatureMetadata, FeatureResponse, read_vector, select_features,
}

module _ {F : Type 0} ⦃f : Float F⦄ where
  -- the age of the features; a text that is no number gives none
  unfoldable pub freshness : F → Option String → Option F
  freshness now none = none
  freshness now (some computed_at) =
      if str_eq computed_at ""
      then none
      else elim (f.parse computed_at) [ none ↦ none | some ts ↦ some (f.round (f.sub now ts) 1) ]

  -- `FeatureMetadata(computed_at=…, freshness_seconds=…)`
  abbrev pub metadata_of : Option String → Option F → FeatureMetadata F
  metadata_of computed_at age = record {
    computed_at = computed_at;
    freshness_seconds = age;
    source = "online_store";
    schema_version = "1.0";
  }

module _ {W F : Type 0} ⦃r : Redis W⦄ ⦃f : Float F⦄ ⦃c : Clock W F⦄ where
  -- the handler from the hash on
  unfoldable pub respond : String → Option String → Bool → Dict String → Exec W (FeatureResponse F)
  respond user_id features include_metadata raw w =
      if is_empty raw then (err (http_exception 404), w) else elim (read_vector raw) [
        | err e ↦ (err e, w)
        | ok vector ↦
            let computed_at = lookup "computed_at" raw in
            (
              ok (record {
                user_id = user_id;
                features = select_features features vector;
                metadata =
                    if include_metadata
                    then metadata_of computed_at (freshness (c.time w) computed_at)
                    else metadata_of none none;
              }),
              w,
            )
      ]

  unfoldable pub get_features : String → Option String → Bool → Exec W (FeatureResponse F)
  get_features user_id features include_metadata = do
    raw ← r.hgetall (feature_key user_id)
    respond user_id features include_metadata raw
