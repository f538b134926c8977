-- ===== src/OnlineStore/Client/Effects.antt =====
-- What the three commands of one write do to every user's hash, expiry and membership.
use mathlib.Core.List.{foldl}
use text.Mathlib.TextPositions.{eq_refl}
use feature_store.Common.{
  ℕ, ◌<◌, String, ◌≡◌, ◌≢◌, sym, ◌∙◌, ◌||◌, Option, some, List, str_eq, if◌then◌else◌,
}
use feature_store.Common.Dict.{Dict, lookup, or_else, not-nil_of_lookup}
use feature_store.Float.Int.{pos}
use feature_store.Redis.{Redis, RedisLaws, Command}
use feature_store.OnlineStore.KeySchema.{
  feature_key, user_index_key, feature_key_iff, str_eq-feature_key, feature_key-ne-index,
}
use feature_store.OnlineStore.Client.{write_commands}

module _ {W : Type 0} ⦃r : Redis W⦄ (laws : RedisLaws W) where
  open laws use {hash, ttl_of, is_member, apply}

  unfoldable pub after : W → List Command → W
  after = foldl (λ v c. apply c v)

  -- What a user's hash holds at one field.
  abbrev pub stored : W → String → String → Option String
  stored w user field = lookup field (hash w (feature_key user))

  module _ (ttl : ℕ) (u : String) (payload : Dict String) (w : W) where
    abbrev pub written : W
    written = after w (write_commands ttl u payload)

    -- A write merges its payload into the hash of its user and leaves the other hashes.
    pub stored-written :
        (v field : String)
        → 0 < ttl
        → stored written v field ≡ (
            if str_eq u v
            then or_else (lookup field payload) (stored w v field)
            else stored w v field)
    unfolding after write_commands
    stored-written v field pos_ttl =
        rw (
          laws.hash-sadd,
          laws.hash-expire _ _ ttl _ pos_ttl,
          laws.hash-hset,
          str_eq-feature_key u v,
        )

    -- A write with a field in its payload leaves its user's hash with `ttl` seconds to live.
    pub ttl-written_self :
        (field value : String)
        → 0 < ttl
        → lookup field payload ≡ some value
        → ttl_of written (feature_key u) ≡ pos ttl
    unfolding after write_commands
    ttl-written_self field value pos_ttl found =
        let there = laws.hash-hset _ _ field payload w ∙ rw (eq_refl (feature_key u), found) in
        rw (laws.ttl-sadd _ _ u _ (λ e. feature_key-ne-index u (sym e))) (
          laws.ttl-expire (feature_key u) ttl _ pos_ttl
            (laws.ttl_exists _ _ (not-nil_of_lookup field {v = value} _ there)))

    pub ttl-written_ne :
        (v : String) → u ≢ v → ttl_of written (feature_key v) ≡ ttl_of w (feature_key v)
    unfolding after write_commands
    ttl-written_ne v ne =
        let other : feature_key u ≢ feature_key v = λ e. ne ((feature_key_iff u v).0 e) in
        laws.ttl-sadd _ _ u _ (λ e. feature_key-ne-index v (sym e))
        ∙ laws.ttl-expire_ne _ _ ttl _ other
        ∙ laws.ttl-hset_ne _ _ payload w other

    -- A write adds its user to the active users, and removes none.
    pub member-written :
        (v : String)
        → 0 < ttl
        → is_member written user_index_key v ≡ (str_eq u v || is_member w user_index_key v)
    unfolding after write_commands
    member-written v pos_ttl =
        rw (laws.member-sadd, laws.member-expire _ _ _ ttl _ pos_ttl, laws.member-hset)
