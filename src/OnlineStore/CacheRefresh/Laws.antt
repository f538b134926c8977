-- ===== src/OnlineStore/CacheRefresh/Laws.antt =====
-- What a cycle of the refresh finds, and what it leaves.
use feature_store.Common.{
  ℕ, suc, ◌<◌, ◌≤◌, String, ◌≡◌, Bool, true, ◌&&◌, ◌↔◌, refl, if◌then◌else◌, Option, none, List, [],
  ◌∷◌, arith, str_eq, eq_iff, Bool-cases, inl, inr, any, filter, length,
}
use feature_store.Common.Dict.{Dict}
use feature_store.Common.Exec.{Exec, ok, Exec-cases}
use feature_store.Float.{Float}
use feature_store.Float.Int.{ℤ, pos, negsuc, eqb_ℤ}
use feature_store.Redis.{Redis, RedisLaws, expire}
use feature_store.Tenacity.{Clock, Tenacity}
use feature_store.OnlineStore.KeySchema.{feature_key, feature_key_iff}
use feature_store.OnlineStore.Client.{ttl, sample_active_users}
use feature_store.OnlineStore.CacheRefresh.{
  OnlineStoreConfig, refresh_threshold, is_stale, stale_among, find_stale_users, refresh_one,
  refresh_features_for_users,
}

-- The members of a filtered list are those that pass the test.
any-filter :
    (p : String → Bool) (u : String) (xs : List String)
    → any (λ v. str_eq v u) (filter p xs) ≡ (p u && any (λ v. str_eq v u) xs)
any-filter p u [] = ground arith
any-filter p u (x ∷ xs) = ground (arith, eq_iff x u, any-filter p u xs)

-- The lifetime that `EXPIRE` makes of one: a key that is gone stays gone.
pub extended : ℕ → ℤ → ℤ
extended seconds t = if eqb_ℤ t (negsuc 1) then t else pos seconds

extended_twice : (seconds : ℕ) (t : ℤ) → extended seconds (extended seconds t) ≡ extended seconds t
unfolding extended
extended_twice seconds t = ground arith

-- The test of the loop, in numbers.
is_stale_lem :
    (threshold : ℕ) (t : ℤ)
    → (is_stale threshold t ≡ true) ↔ ((m : ℕ) × (t ≡ pos m) × (0 < m) × (m < threshold))
is_stale_lem threshold (pos m) =
    (λ h. (m, refl, ground arith, ground arith), λ (k, e, a, b). ground (arith, e))
is_stale_lem threshold (negsuc m) =
    (λ h. absurd (ground arith), λ (k, e, a, b). absurd (ground (arith, e)))

module _ {W : Type 0} ⦃r : Redis W⦄ (laws : RedisLaws W) where
  open laws use {ttl_of, apply}

  -- The test of the loop, on the lifetime that a user's key has.
  abbrev pub found_stale : ℕ → W → String → Bool
  found_stale threshold w u = is_stale threshold (ttl_of w (feature_key u))

  -- The loop that returns keeps the users, in order, whose keys have a lifetime below the threshold
  -- and above zero, and changes nothing.
  pub stale_among_lem :
      (threshold : ℕ) (users stale : List String) (w w' : W)
      → stale_among threshold users w ≡ (ok stale, w')
      → (stale ≡ filter (found_stale threshold w) users) × (w' ≡ w)
  unfolding stale_among ttl
  stale_among_lem threshold [] stale w w' h = ground arith
  stale_among_lem threshold (u ∷ us) stale w w' h = elim (Exec-cases (r.ttl (feature_key u) w)) [
    | inr (x, v, e) ↦ absurd (ground arith)
    | inl (t, v, e) ↦ elim (Exec-cases (stale_among threshold us v)) [
      | inr (x, v₂, e') ↦ absurd (ground arith)
      | inl (rest, v₂, e') ↦
          ground
            (arith, laws.ttl_lem (feature_key u) w v t e, stale_among_lem threshold us rest v v₂ e')
    ]
  ]

module _ {W F : Type 0} ⦃r : Redis W⦄ ⦃f : Float F⦄ ⦃c : Clock W F⦄ ⦃t : Tenacity W⦄
    (cfg : OnlineStoreConfig F) where
  -- However many calls raise, the loop ends and reports at most as many as it was given.
  pub refreshed-le-length :
      (users : List String) (fn : Option (String → Exec W (Dict F))) (w : W)
      → (refresh_features_for_users cfg users fn w).0 ≤ length users
  unfolding refresh_features_for_users
  refreshed-le-length [] fn w = omega arith
  refreshed-le-length (u ∷ us) fn w =
      ground (arith, refreshed-le-length us fn (refresh_one cfg fn u w).1)

  module _ (laws : RedisLaws W) (pos_ttl : 0 < cfg.feature_ttl_seconds) where
    open laws use {ttl_of, apply}

    refresh : W → String → W
    refresh w u = apply (expire (feature_key u) cfg.feature_ttl_seconds) w

    refresh_ttl :
        (w : W) (v u : String)
        → ttl_of (refresh w v) (feature_key u) ≡ (
            if str_eq v u
            then extended cfg.feature_ttl_seconds (ttl_of w (feature_key u))
            else ttl_of w (feature_key u))
    unfolding refresh extended
    refresh_ttl w v u =
        let n = cfg.feature_ttl_seconds in
        elim (Bool-cases (str_eq v u)) [
          | inl same ↦ ground (
            arith,
            (eq_iff v u).0 same,
            laws.ttl-expire (feature_key v) n w pos_ttl,
            laws.ttl-expire_missing (feature_key v) n w,
          )
          | inr other ↦ ground (
            arith,
            eq_iff v u,
            feature_key_iff v u,
            laws.ttl-expire_ne (feature_key v) (feature_key u) n w,
          )
        ]

    -- A loop that counts every user has run the first one's command, and counts all the others.
    refreshed-cons :
        (u : String) (us : List String) (w : W)
        → (refresh_features_for_users cfg (u ∷ us) none w).0 ≡ suc (length us)
        → let (rest, w') = refresh_features_for_users cfg us none (refresh w u) in
          (rest ≡ length us) × ((refresh_features_for_users cfg (u ∷ us) none w).1 ≡ w')
    unfolding refresh_features_for_users refresh_one refresh
    refreshed-cons u us w h =
        let key = feature_key u in
        let call = expire key cfg.feature_ttl_seconds in
        elim (Exec-cases (r.run call w)) [
          | inl (_, v, e) ↦ ground (arith, laws.run_lem call w v e)
          | inr (x, v, e) ↦ absurd (ground (arith, refreshed-le-length us none v))
        ]

    -- The loop extends the keys of its users, and leaves the others.
    refreshed_ttl :
        (users : List String) (w : W) (u : String)
        → (refresh_features_for_users cfg users none w).0 ≡ length users
        → ttl_of (refresh_features_for_users cfg users none w).1 (feature_key u) ≡ (
            if any (λ v. str_eq v u) users
            then extended cfg.feature_ttl_seconds (ttl_of w (feature_key u))
            else ttl_of w (feature_key u))
    refreshed_ttl [] w u all = unfold refresh_features_for_users in refl
    refreshed_ttl (v ∷ us) w u all =
        let (all', e) = refreshed-cons v us w all in
        let later = refreshed_ttl us (refresh w v) u all' in
        rw e (
          ground (
            arith,
            later,
            refresh_ttl w v u,
            extended_twice cfg.feature_ttl_seconds (ttl_of w (feature_key u)),
          ))

    -- One cycle of the refresh, with a positive lifetime. A search that returns finds exactly the
    -- sampled users whose keys have a lifetime above zero and below the threshold. If the refresh,
    -- at whatever later time it starts, counts every one of them, then it has given the full
    -- lifetime to the keys of those users that are still there when it starts; a key that has
    -- expired since is counted and stays gone, and every other user keeps the lifetime it had.
    pub refresh_cycle :
        (n : ℕ) (u : String) (users stale : List String) (w v w₁ w₂ : W)
        → sample_active_users n w ≡ (ok users, v)
        → find_stale_users cfg n w ≡ (ok stale, w₁)
        → (refresh_features_for_users cfg stale none w₂).0 ≡ length stale
        → ((any (λ x. str_eq x u) stale ≡ true) ↔ (
            (any (λ x. str_eq x u) users ≡ true)
            × ((m : ℕ) × (ttl_of w₁ (feature_key u) ≡ pos m)
                × (0 < m)
                × (m < refresh_threshold cfg))))
          × (ttl_of (refresh_features_for_users cfg stale none w₂).1 (feature_key u) ≡ (
              if any (λ x. str_eq x u) stale
              then extended cfg.feature_ttl_seconds (ttl_of w₂ (feature_key u))
              else ttl_of w₂ (feature_key u)))
    unfolding find_stale_users
    refresh_cycle n u users stale w v w₁ w₂ sampled search all =
        let threshold = refresh_threshold cfg in
        let (found, same) =
          stale_among_lem laws threshold users stale v w₁ (ground (arith, sampled)) in
        let test = found_stale laws threshold v in
        let hits : any (λ x. str_eq x u) stale ≡ (test u && any (λ x. str_eq x u) users) =
          rw found (any-filter test u users) in
        let (bounds, back) = is_stale_lem threshold (ttl_of v (feature_key u)) in
        (
          rw same (
            λ h. (ground (arith, hits), bounds (ground (arith, hits))),
            λ (named, short). let hit = back short in ground (arith, hits, hit),
          ),
          refreshed_ttl stale w₂ u all,
        )
