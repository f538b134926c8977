-- ===== src/OnlineStore/Client.antt =====
-- online_store/redis_client.py: the methods of `SyncRedisClient`. Its connection pool is left out:
-- a call that finds no connection raises, as any other call may.
pub mod Effects
pub mod RoundTrip
pub mod Batch
use feature_store.Common.{
  ℕ, suc, ◌<◌, ◌*◌, String, Bool, true, false, not, Option, none, some, List, [], ◌∷◌, ◌++◌,
  is_empty, if◌then◌else◌,
}
use feature_store.Common.Dict.{Dict, lookup, insert, map_values}
use feature_store.Common.Exec.{Exec, Result, ok, err, key_error, pure, lift, ◌>>=◌, ◌>>◌}
use feature_store.Float.{Float, nought}
use feature_store.Float.Int.{ℤ}
use feature_store.Redis.{Redis, Command, hset, expire, sadd}
use feature_store.Tenacity.{Clock, Tenacity}
use feature_store.OnlineStore.KeySchema.{feature_key, user_index_key, feature_names}

-- The three commands that write the hash of one user, with `ttl` seconds to live.
unfoldable pub write_commands : ℕ → String → Dict String → List Command
write_commands ttl user_id payload =
    hset (feature_key user_id) payload
    ∷ expire (feature_key user_id) ttl
    ∷ sadd user_index_key user_id
    ∷ []

-- A row of the batch: `rec["user_id"]`, which may be missing, and the other entries.
pub record Row (F : Type 0) : Type 0 where
  pub user_id : Option String
  pub entries : Dict F

module _ {F : Type 0} ⦃f : Float F⦄ where
  -- `computed_at or now`: zero is as good as `None`
  abbrev pub or_now : Option F → F → F
  or_now none now = now
  or_now (some x) now = if f.eq x nought then now else x

  -- the values as texts, and the time of the write
  unfoldable pub write_payload : Dict F → F → Dict String
  write_payload features ts = insert "computed_at" (f.str ts) (map_values f.str features)

  -- `{k: str(rec[k]) for k in FEATURE_FIELDS[:-1] if k in rec}`
  abbrev pub known_features : List String → Dict F → Dict String
  known_features [] entries = []
  known_features (k ∷ ks) entries =
      let rest = known_features ks entries in
      elim (lookup k entries) [ none ↦ rest | some v ↦ (k, f.str v) ∷ rest ]

  unfoldable pub batch_payload : Dict F → F → Dict String
  batch_payload entries now =
      insert "computed_at" (f.str (elim (lookup "computed_at" entries) [ none ↦ now | some t ↦ t ]))
        (known_features feature_names entries)

  -- The loop that fills the pipeline, with the time at each turn; the KeyError leaves it before
  -- anything is sent.
  unfoldable pub batch_commands : ℕ → (ℕ → F) → List (Row F) → Result (List Command)
  batch_commands ttl now [] = ok []
  batch_commands ttl now (rec ∷ recs) = elim rec.user_id [
    | none ↦ err key_error
    | some user_id ↦ elim (batch_commands ttl (λ i. now (suc i)) recs) [
      | ok cs ↦ ok (write_commands ttl user_id (batch_payload rec.entries (now 0)) ++ cs)
      | err e ↦ err e
    ]
  ]

module _ {W F : Type 0} ⦃r : Redis W⦄ ⦃f : Float F⦄ ⦃c : Clock W F⦄ where
  -- one attempt of `write_features`
  unfoldable pub write_once : ℕ → String → Dict F → Option F → Exec W (Unit {0})
  write_once ttl user_id features computed_at w =
      r.execute
        (write_commands ttl user_id (write_payload features (or_now computed_at (c.time w)))) w

  unfoldable pub write_features :
      ⦃t : Tenacity W⦄ → ℕ → String → Dict F → Option F → Exec W (Unit {0})
  write_features ⦃t⦄ ttl user_id features computed_at =
      t.retry 3 (λ e. true) false (write_once ttl user_id features computed_at)

  unfoldable pub batch_write_features : ℕ → List (Row F) → Exec W (Unit {0})
  batch_write_features ttl records w = elim (batch_commands ttl (c.turn w) records) [
    | ok cs ↦ r.execute cs w
    | err e ↦ (err e, w)
  ]

module _ {W : Type 0} ⦃r : Redis W⦄ where
  unfoldable pub read_features : String → Exec W (Option (Dict String))
  read_features user_id = do
    found ← r.hgetall (feature_key user_id)
    pure (if is_empty found then none else some found)

  unfoldable pub ttl : String → Exec W ℤ
  ttl user_id = r.ttl (feature_key user_id)

  unfoldable pub sample_active_users : ℕ → Exec W (List String)
  sample_active_users n = r.srandmember user_index_key n
