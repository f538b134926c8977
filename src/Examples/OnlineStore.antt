-- ===== src/Examples/OnlineStore.antt =====
-- Examples for the online store.
use feature_store.Common.{
  ℕ, ◌<◌, ◌↔◌, any, ◌+◌, str_eq, if◌then◌else◌, String, ◌≡◌, refl, arith, true, none, some, List,
  [], ◌∷◌,
}
use feature_store.Common.Dict.{Dict, lookup, or_else, merge, insert, map_values}
use feature_store.Float.Fixed.{Fixed, fixed_float}
use feature_store.Float.Int.{pos, ◌-ℤ◌, ◌*ℤ◌}
use feature_store.Redis.Memory.{Memory, empty, memory_redis, Memory-RedisLaws}
use feature_store.Tenacity.Simple.{simple_tenacity, simple-TenacityLaws, attempt, settle}
use feature_store.OnlineStore.KeySchema.{feature_key}
use feature_store.OnlineStore.Client.{
  Row, write_commands, write_payload, ttl, sample_active_users, write_once, write_features,
  read_features, batch_write_features, batch_commands,
}
use feature_store.OnlineStore.Client.RoundTrip.{read_features-write_features}
use feature_store.OnlineStore.Client.Effects.{stored}
use feature_store.OnlineStore.Client.Batch.{latest, stored-batch_write_features}
use feature_store.OnlineStore.CacheRefresh.{
  default_config, stale_among, refresh_threshold, find_stale_users, refresh_one,
  refresh_features_for_users,
}
use feature_store.OnlineStore.CacheRefresh.Laws.{extended, refresh_cycle}
use feature_store.Examples.World.{tiny, memory_clock, ann, two_features}

-- after the write of two features
abbrev world₁ : Memory
world₁ = (write_features 300 ann two_features (some (tiny 9)) empty).1

read_features-write_features_example :
    (d : Dict String) × (some (world₁.hash (feature_key ann)) ≡ some d)
    × (lookup "anomaly_score" d ≡ some (fixed_float.str (tiny 5)))
unfolding write_features write_once attempt settle read_features write_commands write_payload
    feature_key merge insert map_values lookup
read_features-write_features_example =
    read_features-write_features Memory-RedisLaws simple-TenacityLaws 300 ann "anomaly_score"
      two_features (some (tiny 9)) (tiny 5) empty world₁ world₁
      (some (world₁.hash (feature_key ann))) (omega arith) refl refl refl refl

-- two records of one user, and one of another
abbrev records : List (Row Fixed)
records =
    record { user_id = some ann; entries = two_features }
    ∷ record { user_id = some "usr_00002"; entries = two_features }
    ∷ record { user_id = some ann; entries = ("anomaly_score", tiny 8) ∷ [] }
    ∷ []

abbrev world₂ : Memory
world₂ = (batch_write_features 300 records empty).1

stored-batch_write_features_example :
    stored Memory-RedisLaws world₂ ann "anomaly_score"
    ≡ or_else
        (latest (λ n. tiny (7 + n)) ann "anomaly_score" records)
        (stored Memory-RedisLaws empty ann "anomaly_score")
unfolding batch_write_features batch_commands
stored-batch_write_features_example =
    stored-batch_write_features Memory-RedisLaws 300 records empty world₂ ann "anomaly_score"
      (omega arith) refl

-- one user has 20 seconds left, the other has no expiry
abbrev world₃ : Memory
world₃ = record {
  up = true;
  hash = λ k. ("anomaly_score", "0.0") ∷ [];
  expiry = λ k. if str_eq k "features:usr_00001" then some 20 else none;
  members = λ k. ann ∷ "usr_00002" ∷ [];
  text = λ k. none;
}

-- the keys have expired
abbrev world₄ : Memory
world₄ = record world₃ { hash = λ k. [] }

refresh_cycle_example :
    ((any (λ x. str_eq x ann) (ann ∷ []) ≡ true) ↔ (
      (any (λ x. str_eq x ann) (ann ∷ "usr_00002" ∷ []) ≡ true)
      × ((m : ℕ) × (Memory-RedisLaws.ttl_of world₃ (feature_key ann) ≡ pos m)
          × (0 < m)
          × (m < refresh_threshold {F = Fixed} default_config))))
    × (Memory-RedisLaws.ttl_of
          (refresh_features_for_users {F = Fixed} default_config (ann ∷ []) none world₄).1
          (feature_key ann)
        ≡ (if any (λ x. str_eq x ann) (ann ∷ [])
            then extended 300 (Memory-RedisLaws.ttl_of world₄ (feature_key ann))
            else Memory-RedisLaws.ttl_of world₄ (feature_key ann)))
unfolding find_stale_users stale_among refresh_threshold feature_key sample_active_users ttl
    refresh_features_for_users refresh_one ◌-ℤ◌ ◌*ℤ◌
refresh_cycle_example =
    refresh_cycle {F = Fixed} default_config Memory-RedisLaws (omega arith) 10 ann
      (ann ∷ "usr_00002" ∷ []) (ann ∷ []) world₃ world₃ world₃ world₄ refl refl refl
