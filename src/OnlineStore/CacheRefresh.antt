-- ===== src/OnlineStore/CacheRefresh.antt =====
-- online_store/cache_refresh.py, and the defaults of online_store/config.py
pub mod Laws
use feature_store.Common.{
  ℕ, suc, ◌+◌, ◌*◌, ◌<◌, ◌≤◌, String, Bool, true, false, ◌&&◌, Option, none, some, List, [], ◌∷◌,
  if◌then◌else◌,
}
use feature_store.Common.Dict.{Dict}
use feature_store.Common.Exec.{Exec, Result, ok, err, pure, ◌>>=◌, ◌>>◌}
use feature_store.Float.{Float}
use feature_store.Float.Int.{ℤ, pos, ltb_ℤ}
use feature_store.Redis.{Redis, expire}
use feature_store.Tenacity.{Clock, Tenacity}
use feature_store.OnlineStore.KeySchema.{feature_key}
use feature_store.OnlineStore.Client.{write_features, ttl, sample_active_users}

-- `OnlineStoreConfig`: the settings that the code reads, and their defaults
pub record OnlineStoreConfig (F : Type 0) : Type 0 where
  pub feature_ttl_seconds : ℕ
  pub refresh_threshold_ratio : F

module _ {F : Type 0} ⦃f : Float F⦄ where
  abbrev pub default_config : OnlineStoreConfig F
  default_config = record { feature_ttl_seconds = 300; refresh_threshold_ratio = f.lit 80 2 }

  -- REFRESH_THRESHOLD
  unfoldable pub refresh_threshold : OnlineStoreConfig F → ℕ
  refresh_threshold cfg =
      f.trunc
        (f.mul (f.of_nat cfg.feature_ttl_seconds) (f.sub (f.lit 1 0) cfg.refresh_threshold_ratio))

-- `0 < ttl < threshold`
abbrev pub is_stale : ℕ → ℤ → Bool
is_stale threshold t = ltb_ℤ (pos 0) t && ltb_ℤ t (pos threshold)

module _ {W : Type 0} ⦃r : Redis W⦄ where
  -- the loop of `find_stale_users`
  unfoldable pub stale_among : ℕ → List String → Exec W (List String)
  stale_among threshold [] = pure []
  stale_among threshold (user_id ∷ users) = do
    t ← ttl user_id
    stale ← stale_among threshold users
    pure (if is_stale threshold t then user_id ∷ stale else stale)

module _ {W F : Type 0} ⦃r : Redis W⦄ ⦃f : Float F⦄ where
  unfoldable pub find_stale_users : OnlineStoreConfig F → ℕ → Exec W (List String)
  find_stale_users cfg sample_size = do
    users ← sample_active_users sample_size
    stale_among (refresh_threshold cfg) users

  module _ ⦃c : Clock W F⦄ ⦃t : Tenacity W⦄ where
    -- the body of the `try`, with and without a `feature_fn`
    unfoldable pub refresh_one :
        OnlineStoreConfig F → Option (String → Exec W (Dict F)) → String → Exec W (Unit {0})
    refresh_one cfg (some feature_fn) user_id = do
      features ← feature_fn user_id
      write_features cfg.feature_ttl_seconds user_id features none
    refresh_one cfg none user_id = r.run (expire (feature_key user_id) cfg.feature_ttl_seconds)

    -- `except Exception`: the loop goes on from the world that the failed call left
    unfoldable pub refresh_features_for_users :
        OnlineStoreConfig F → List String → Option (String → Exec W (Dict F)) → W → ℕ × W
    refresh_features_for_users cfg [] feature_fn w = (0, w)
    refresh_features_for_users cfg (user_id ∷ user_ids) feature_fn w =
        let (res, w₁) = refresh_one cfg feature_fn user_id w in
        let (refreshed, w₂) = refresh_features_for_users cfg user_ids feature_fn w₁ in
        (elim res [ ok _ ↦ 1 | err _ ↦ 0 ] + refreshed, w₂)
