-- ===== src/OnlineStore/Client/RoundTrip.antt =====
-- What a write that returned leaves for every later read.
use text.Mathlib.TextPositions.{eq_refl}
use mathlib.Core.Option
use feature_store.Common.{
  ℕ, ◌<◌, String, ◌≡◌, ◌∙◌, true, false, Option, some, arith, str_eq, if◌then◌else◌, inl, inr,
}
use feature_store.Common.Dict.{
  Dict, lookup, map_values, not-nil_of_lookup, lookup-insert, lookup-map_values,
}
use feature_store.Common.Exec.{ok, Exec-cases}
use feature_store.Float.{Float}
use feature_store.Float.Int.{pos}
use feature_store.Redis.{Redis, RedisLaws}
use feature_store.Tenacity.{Clock, Tenacity, TenacityLaws}
use feature_store.Tenacity.Simple.{retry-returned}
use feature_store.OnlineStore.KeySchema.{feature_key, user_index_key}
use feature_store.OnlineStore.Client.{
  or_now, write_payload, write_once, write_features, read_features,
}
use feature_store.OnlineStore.Client.Effects.{
  after, stored, written, stored-written, ttl-written_self, member-written,
}

-- A read that returns shows the hash of its user.
pub read_features_lem :
    {W : Type 0} ⦃r : Redis W⦄ (laws : RedisLaws W) (u : String) (w w' : W)
    (o : Option (Dict String)) (k v : String)
    → read_features u w ≡ (ok o, w')
    → stored laws w u k ≡ some v
    → (d : Dict String) × (o ≡ some d) × (lookup k d ≡ some v)
unfolding read_features
read_features_lem ⦃r⦄ laws u w w' o k v h s = elim (Exec-cases (r.hgetall (feature_key u) w)) [
  | inl (d, w₁, e) ↦
      let found : lookup k d ≡ some v = rw (laws.hgetall_lem _ w w₁ d e).0 s in
      (d, ground (arith, not-nil_of_lookup k {v = v} d found), found)
  | inr (x, w₁, e) ↦ absurd (ground arith)
]

module _ {F : Type 0} ⦃f : Float F⦄ where
  pub lookup-write_payload :
      (features : Dict F) (ts : F) (k : String)
      → lookup k (write_payload features ts)
        ≡ (if str_eq "computed_at" k then some (f.str ts) else Option.map f.str (lookup k features))
  unfolding write_payload
  lookup-write_payload features ts k =
      lookup-insert "computed_at" k (f.str ts) (map_values f.str features) ∙ rw lookup-map_values

module _ {W F : Type 0} ⦃r : Redis W⦄ ⦃f : Float F⦄ ⦃c : Clock W F⦄ (laws : RedisLaws W) where
  open laws use {hash, ttl_of, is_member}

  -- A write that returned began its last attempt in some world `v`.
  pub write_features-written :
      ⦃t : Tenacity W⦄ (tlaws : TenacityLaws W) (ttl : ℕ) (u : String) (features : Dict F)
      (at : Option F) (w w' : W)
      → write_features ttl u features at w ≡ (ok tt, w')
      → (v : W) × (w' ≡ written laws ttl u (write_payload features (or_now at (c.time v))) v)
  unfolding write_features write_once after
  write_features-written tlaws ttl u features at w w' h =
      let (v, e) = retry-returned tlaws 2 (λ e. true) false _ w w' tt h in
      (v, laws.execute_lem _ v w' e)

  module _ ⦃t : Tenacity W⦄ (tlaws : TenacityLaws W) where
    -- After `write_features` of one user has returned, with a positive lifetime, a read of that
    -- user that returns finds the text of every feature value that was written, for a feature of
    -- another name than `computed_at`.
    pub read_features-write_features :
        (ttl : ℕ) (u k : String) (features : Dict F) (at : Option F) (x : F) (w w₁ w₂ : W)
        (o : Option (Dict String))
        → 0 < ttl
        → str_eq "computed_at" k ≡ false
        → lookup k features ≡ some x
        → write_features ttl u features at w ≡ (ok tt, w₁)
        → read_features u w₁ ≡ (ok o, w₂)
        → (d : Dict String) × (o ≡ some d) × (lookup k d ≡ some (f.str x))
    read_features-write_features ttl u k features at x w w₁ w₂ o pos_ttl other found wrote read =
        let (v, e) = write_features-written tlaws ttl u features at w w₁ wrote in
        read_features_lem laws u w₁ w₂ o k (f.str x) read (
          rw e (
            stored-written laws ttl u _ v u k pos_ttl
            ∙ rw (eq_refl u, lookup-write_payload, other, found)))

    -- After `write_features` of one user has returned, with a positive lifetime, that user's hash
    -- has the full lifetime before it, and the user is among the active users.
    pub write_features_expiry :
        (ttl : ℕ) (u : String) (features : Dict F) (at : Option F) (w w₁ : W)
        → 0 < ttl
        → write_features ttl u features at w ≡ (ok tt, w₁)
        → (ttl_of w₁ (feature_key u) ≡ pos ttl) × (is_member w₁ user_index_key u ≡ true)
    write_features_expiry ttl u features at w w₁ pos_ttl wrote =
        let (v, e) = write_features-written tlaws ttl u features at w w₁ wrote in
        let ts = or_now at (c.time v) in
        let payload = write_payload features ts in
        (
          rw e (
              ttl-written_self laws ttl u payload v "computed_at" (f.str ts) pos_ttl
                (lookup-write_payload features ts "computed_at")),
          rw e (member-written laws ttl u payload v u pos_ttl ∙ rw (eq_refl u)),
        )
