-- ===== src/Examples/Serving.antt =====
-- Examples for the serving API and the scheduled tasks.
use feature_store.Common.{
  ◌≡◌, refl, true, none, some, [], ◌∷◌, count, filter, str_eq, if◌then◌else◌,
}
use feature_store.Float.Fixed.{Fixed, fixed_float}
use feature_store.Redis.Memory.{Memory, empty, memory_redis, Memory-RedisLaws}
use feature_store.Tenacity.Simple.{simple_tenacity}
use feature_store.OnlineStore.KeySchema.{feature_key}
use feature_store.OnlineStore.Client.{write_features}
use feature_store.OnlineStore.CacheRefresh.Laws.{found_stale}
use feature_store.Api.Vector.{FeatureVector, model_dump, split_comma, is_in, select_features}
use feature_store.Api.Features.Serving.{mask, select_features-eq-mask}
use feature_store.Airflow.FeatureRefresh.{refresh_commands, find_and_refresh_stale}
use feature_store.Airflow.FeatureRefresh.Laws.{refreshed_ttl, find_and_refresh_stale_lem}
use feature_store.Examples.World.{tiny, memory_clock, ann}

abbrev vector : FeatureVector Fixed
vector = record {
  txn_count_5m = tiny 1;
  avg_spend_1h = tiny 2;
  session_activity_rate = tiny 3;
  cart_abandon_ratio = tiny 4;
  product_interaction_freq = tiny 5;
  anomaly_score = tiny 6;
}

select_features-eq-mask_example :
    select_features (some "anomaly_score,other") vector
    ≡ mask (is_in (split_comma "anomaly_score,other")) vector
select_features-eq-mask_example = select_features-eq-mask "anomaly_score,other" vector refl

abbrev served : Memory
served = (write_features 300 ann (model_dump vector) (some (tiny 5)) empty).1

-- two active users, of whom one has 20 seconds left
abbrev active : Memory
active = record {
  up = true;
  hash = λ k. ("anomaly_score", "+11") ∷ ("txn_count_5m", "five") ∷ [];
  expiry = λ k. if str_eq k "features:usr_00001" then some 20 else some 200;
  members = λ k. ann ∷ "usr_00002" ∷ [];
  text = λ k. if str_eq k "baseline:dist:txn_count_5m" then some "+1" else none;
}

find_and_refresh_stale_lem_example :
    let w' = (find_and_refresh_stale active).1 in
    (1 ≡ count (found_stale Memory-RedisLaws 60 active) (ann ∷ "usr_00002" ∷ []))
    × (Memory-RedisLaws.ttl_of w' (feature_key ann)
        ≡ refreshed_ttl Memory-RedisLaws active
            (filter (found_stale Memory-RedisLaws 60 active) (ann ∷ "usr_00002" ∷ []))
            ann)
unfolding find_and_refresh_stale refresh_commands feature_key
find_and_refresh_stale_lem_example =
    find_and_refresh_stale_lem Memory-RedisLaws (ann ∷ "usr_00002" ∷ []) 1 ann active active
      (find_and_refresh_stale active).1 refl refl
