-- ===== src/Airflow/FeatureRefresh/Laws.antt =====
-- What a run of the refresh task leaves.
use mathlib.Core.List.{foldl}
use feature_store.Common.{
  ℕ, String, ◌≡◌, ◌≢◌, refl, ◌∙◌, List, [], ◌∷◌, map, arith, str_eq, eq_iff, if◌then◌else◌,
  Bool-cases, inl, inr, any, filter, count, length-map, length-filter, is_empty, All,
}
use feature_store.Common.Exec.{ok, Exec-cases}
use feature_store.Float.Int.{ℤ, pos, negsuc}
use feature_store.Redis.{Redis, RedisLaws, Command, expire}
use feature_store.OnlineStore.KeySchema.{feature_key, feature_key_iff, user_index_key}
use feature_store.OnlineStore.CacheRefresh.Laws.{found_stale}
use feature_store.Airflow.FeatureRefresh.{refresh_commands, find_and_refresh_stale}

abbrev refresh_command : String → Command
refresh_command u = expire (feature_key u) 300

module _ {W : Type 0} ⦃r : Redis W⦄ (laws : RedisLaws W) where
  open laws use {ttl_of, apply}

  abbrev HasKey : W → String → Type 0
  HasKey w u = ttl_of w (feature_key u) ≢ negsuc 1

  abbrev pub refreshed_ttl : W → List String → String → ℤ
  refreshed_ttl w us v = if any (λ u. str_eq u v) us then pos 300 else ttl_of w (feature_key v)

  ttl_step :
      (w : W) (u v : String)
      → HasKey w u
      → ttl_of (apply (refresh_command u) w) (feature_key v)
        ≡ (if str_eq u v then pos 300 else ttl_of w (feature_key v))
  ttl_step w u v there = ground (
    arith,
    eq_iff u v,
    feature_key_iff u v,
    laws.ttl-expire (feature_key u) 300 w,
    laws.ttl-expire_ne (feature_key u) (feature_key v) 300 w,
  )

  keys_stay :
      (w : W) (u : String) (us : List String)
      → HasKey w u
      → All (HasKey w) us
      → All (HasKey (apply (refresh_command u) w)) us
  keys_stay w u [] there _ = tt
  keys_stay w u (v ∷ us) there (h, hs) =
      (ground (arith, ttl_step w u v there), keys_stay w u us there hs)

  ttl_every :
      (us : List String) (w : W) (v : String)
      → All (HasKey w) us
      → ttl_of (foldl (λ x c. apply c x) w (map refresh_command us)) (feature_key v)
        ≡ refreshed_ttl w us v
  ttl_every [] w v _ = refl
  ttl_every (u ∷ us) w v (h, hs) =
      ttl_every us (apply (refresh_command u) w) v (keys_stay w u us h hs)
      ∙ ground (arith, ttl_step w u v h)

  stale_keys : (us : List String) (w : W) → All (HasKey w) (filter (found_stale laws 60 w) us)
  stale_keys [] w = tt
  stale_keys (u ∷ us) w = elim (Bool-cases (found_stale laws 60 w u)) [
    | inl s ↦ rw s (ground (arith, s), stale_keys us w)
    | inr s ↦ rw s (stale_keys us w)
  ]

  refresh_commands_lem :
      (us : List String) (w w' : W) (cs : List Command)
      → refresh_commands us w ≡ (ok cs, w')
      → (cs ≡ map refresh_command (filter (found_stale laws 60 w) us)) × (w' ≡ w)
  unfolding refresh_commands
  refresh_commands_lem [] w w' cs h = ground arith
  refresh_commands_lem (u ∷ us) w w' cs h = elim (Exec-cases (r.ttl (feature_key u) w)) [
    | inr (x, v, e) ↦ absurd (ground arith)
    | inl (t, v, e) ↦ elim (Exec-cases (refresh_commands us v)) [
      | inr (x, v₂, e') ↦ absurd (ground arith)
      | inl (rest, v₂, e') ↦
          ground (arith, laws.ttl_lem (feature_key u) w v t e, refresh_commands_lem us v v₂ rest e')
    ]
  ]

  -- When the task returns, the number that it pushes is that of the sampled users whose features
  -- had under 60 seconds left, and those users have 300 seconds left, while every other user's
  -- features have the time that they had.
  pub find_and_refresh_stale_lem :
      (us : List String) (n : ℕ) (v : String) (w w₁ w₂ : W)
      → r.srandmember user_index_key 1000 w ≡ (ok us, w₁)
      → find_and_refresh_stale w ≡ (ok n, w₂)
      → (n ≡ count (found_stale laws 60 w₁) us)
        × (ttl_of w₂ (feature_key v) ≡ refreshed_ttl w₁ (filter (found_stale laws 60 w₁) us) v)
  unfolding find_and_refresh_stale
  find_and_refresh_stale_lem us n v w w₁ w₂ sampled h = elim (Exec-cases (refresh_commands us w₁)) [
    | inr (x, u, e) ↦ absurd (ground arith)
    | inl (cs, u, e) ↦
        let (queued, same) = refresh_commands_lem us w₁ u cs e in
        let stale = filter (found_stale laws 60 w₁) us in
        let size = length-map refresh_command stale in
        let counted = length-filter (found_stale laws 60 w₁) us in
        elim (Bool-cases (is_empty cs)) [
          | inl none_queued ↦
              let nothing : stale ≡ [] = ground (arith, queued, none_queued, size) in
              ground (arith, nothing, counted)
          | inr some_queued ↦ elim (Exec-cases (r.execute cs w₁)) [
            | inr (x, z, e') ↦ absurd (ground arith)
            | inl (a, z, e') ↦
                let moved : z ≡ foldl (λ x c. apply c x) w₁ cs = laws.execute_lem cs w₁ z e' in
                ground (arith, queued, size, counted, ttl_every stale w₁ v (stale_keys us w₁))
          ]
        ]
  ]
