-- ===== src/OnlineStore/Client/Batch.antt =====
-- The batch write: what a whole pipeline leaves, and that a bad record stops all of it.
use mathlib.Core.List.{foldl-append}
use mathlib.Core.Option
use feature_store.Common.{
  ℕ, suc, ◌<◌, refl, ap, String, ◌≡◌, ◌∙◌, Bool, true, false, Option, none, some, List, [], ◌∷◌,
  ◌++◌, arith, str_eq, eq_iff, if◌then◌else◌, Bool-cases, Option-cases, ◌⊎◌, inl, inr, any,
}
use feature_store.Common.Dict.{Dict, lookup, or_else, lookup-insert}
use feature_store.Common.Exec.{ok, err, Result-cases, key_error}
use feature_store.Float.{Float}
use feature_store.Float.Int.{pos}
use feature_store.Redis.{Redis, RedisLaws, Command}
use feature_store.Tenacity.{Clock}
use feature_store.OnlineStore.KeySchema.{feature_key, feature_names}
use feature_store.OnlineStore.Client.{
  Row, write_commands, known_features, batch_payload, batch_commands, batch_write_features,
}
use feature_store.OnlineStore.Client.Effects.{
  after, stored, written, stored-written, ttl-written_self, ttl-written_ne,
}

module _ {F : Type 0} ⦃f : Float F⦄ where
  abbrev pub is_user : String → Row F → Bool
  is_user u rec = elim rec.user_id [ none ↦ false | some v ↦ str_eq v u ]

  -- the record's own time, or the one at which it is reached
  abbrev stamp : Dict F → F → F
  stamp entries now = elim (lookup "computed_at" entries) [ none ↦ now | some t ↦ t ]

  -- The text that one record, reached at a time, has for a field of the hash: that of its value
  -- for a feature of the store, its time for `computed_at`, and none for another field.
  pub text_of : F → String → Dict F → Option String
  text_of now k entries =
      if str_eq "computed_at" k
      then some (f.str (stamp entries now))
      else if any (λ j. str_eq j k) feature_names
      then Option.map f.str (lookup k entries)
      else none

  -- The text that the last record of a user with this field leaves there.
  pub latest : (ℕ → F) → String → String → List (Row F) → Option String
  latest now u k [] = none
  latest now u k (rec ∷ recs) =
      or_else (latest (λ i. now (suc i)) u k recs)
        (if is_user u rec then text_of (now 0) k rec.entries else none)

  lookup-known_features :
      (names : List String) (entries : Dict F) (k : String)
      → lookup k (known_features names entries)
        ≡ (if any (λ j. str_eq j k) names then Option.map f.str (lookup k entries) else none)
  unfolding lookup
  lookup-known_features [] entries k = refl
  lookup-known_features (j ∷ names) entries k =
      let ih = lookup-known_features names entries k in
      elim (Bool-cases (str_eq j k)) [
        | inl same ↦ ground (arith, ih, ap (λ z. lookup z entries) ((eq_iff j k).0 same))
        | inr other ↦ ground (arith, ih)
      ]

  lookup-batch_payload :
      (entries : Dict F) (now : F) (k : String)
      → lookup k (batch_payload entries now) ≡ text_of now k entries
  unfolding batch_payload text_of
  lookup-batch_payload entries now k =
      lookup-insert "computed_at" k _ _
      ∙ ground (arith, lookup-known_features feature_names entries k)

  -- A record with no user makes the loop raise.
  batch_commands_raises :
      (ttl : ℕ) (now : ℕ → F) (recs : List (Row F))
      → any (λ rec. elim rec.user_id [ none ↦ true | some _ ↦ false ]) recs ≡ true
      → batch_commands ttl now recs ≡ err key_error
  unfolding batch_commands
  batch_commands_raises ttl now [] h = cc
  batch_commands_raises ttl now (rec ∷ recs) h =
      ground (arith, batch_commands_raises ttl (λ i. now (suc i)) recs)

  -- A pipeline is filled only if every record names its user.
  batch_commands-cons :
      (ttl : ℕ) (now : ℕ → F) (rec : Row F) (recs : List (Row F)) (cs : List Command)
      → batch_commands ttl now (rec ∷ recs) ≡ ok cs
      → (u : String) × (cs' : List Command) × (rec.user_id ≡ some u)
        × (batch_commands ttl (λ i. now (suc i)) recs ≡ ok cs')
        × (cs ≡ write_commands ttl u (batch_payload rec.entries (now 0)) ++ cs')
  unfolding batch_commands
  batch_commands-cons ttl now rec recs cs h = elim (Option-cases rec.user_id) [
    | inl e ↦ absurd (ground arith)
    | inr (u, e) ↦ elim (Result-cases (batch_commands ttl (λ i. now (suc i)) recs)) [
      | inl (cs', e') ↦ (u, cs', e, e', ground arith)
      | inr (x, e') ↦ absurd (ground arith)
    ]
  ]

module _ {W : Type 0} ⦃r : Redis W⦄ (laws : RedisLaws W) where
  after-append :
      (w : W) (xs ys : List Command) → after laws w (xs ++ ys) ≡ after laws (after laws w xs) ys
  unfolding after
  after-append w xs ys = foldl-append _ w xs ys

module _ {W F : Type 0} ⦃r : Redis W⦄ ⦃f : Float F⦄ (laws : RedisLaws W) (ttl : ℕ)
    (pos_ttl : 0 < ttl) where
  open laws use {ttl_of, is_member}

  after-nil :
      (now : ℕ → F) (w : W) (cs : List Command)
      → batch_commands ttl now [] ≡ ok cs
      → after laws w cs ≡ w
  unfolding batch_commands after
  after-nil now w cs h = let e : cs ≡ [] = cc in rw e

  -- One record and the rest of the batch.
  after-cons :
      (now : ℕ → F) (rec : Row F) (recs : List (Row F)) (cs : List Command) (w : W)
      → batch_commands ttl now (rec ∷ recs) ≡ ok cs
      → (u : String) × (cs' : List Command) × (rec.user_id ≡ some u)
        × (batch_commands ttl (λ i. now (suc i)) recs ≡ ok cs')
        × (after laws w cs
            ≡ after laws (written laws ttl u (batch_payload rec.entries (now 0)) w) cs')
  after-cons now rec recs cs w h =
      let (u, cs', e, e', split) = batch_commands-cons ttl now rec recs cs h in
      (u, cs', e, e', rw split (after-append laws w _ cs'))

  -- The pipeline leaves at each field what the last record of its user has there, and what stood
  -- there before if no record has.
  stored-batch :
      (now : ℕ → F) (recs : List (Row F)) (cs : List Command) (w : W) (u k : String)
      → batch_commands ttl now recs ≡ ok cs
      → stored laws (after laws w cs) u k ≡ or_else (latest now u k recs) (stored laws w u k)
  unfolding latest
  stored-batch now [] cs w u k h = rw (after-nil now w cs h)
  stored-batch now (rec ∷ recs) cs w u k h =
      let (v, cs', e, e', split) = after-cons now rec recs cs w h in
      let w₁ = written laws ttl v (batch_payload rec.entries (now 0)) w in
      rw split (
        ground (
          arith,
          stored-batch (λ i. now (suc i)) recs cs' w₁ u k e',
          lookup-batch_payload rec.entries (now 0) k,
          stored-written laws ttl v (batch_payload rec.entries (now 0)) w u k pos_ttl,
        ))

  -- Every user of the batch ends with the full lifetime, and so does one who had it before.
  ttl-batch :
      (now : ℕ → F) (recs : List (Row F)) (cs : List Command) (w : W) (u : String)
      → batch_commands ttl now recs ≡ ok cs
      → (any (is_user u) recs ≡ true) ⊎ (ttl_of w (feature_key u) ≡ pos ttl)
      → ttl_of (after laws w cs) (feature_key u) ≡ pos ttl
  unfolding text_of
  ttl-batch now [] cs w u h (inr old) = rw (after-nil now w cs h) old
  ttl-batch now [] cs w u h (inl named) = cc
  ttl-batch now (rec ∷ recs) cs w u h named =
      let (v, cs', e, e', split) = after-cons now rec recs cs w h in
      let payload = batch_payload rec.entries (now 0) in
      let w₁ = written laws ttl v payload w in
      rw split (
        ttl-batch (λ i. now (suc i)) recs cs' w₁ u e'
          (elim (Bool-cases (str_eq v u)) [
            | inl same ↦ inr (
                rw (← (eq_iff v u).0 same) (
                  ttl-written_self laws ttl v payload w "computed_at" _ pos_ttl
                    (lookup-batch_payload rec.entries (now 0) "computed_at")))
            | inr other ↦ elim named [
              | inl n ↦ inl (ground arith)
              | inr old ↦
                  inr
                    (ttl-written_ne laws ttl v payload w u (λ p. ground (arith, eq_iff v u)) ∙ old)
            ]
          ]))

module _ {W F : Type 0} ⦃r : Redis W⦄ ⦃f : Float F⦄ ⦃c : Clock W F⦄ (laws : RedisLaws W) where
  open laws use {ttl_of}

  batch-executed :
      (ttl : ℕ) (recs : List (Row F)) (w w' : W)
      → batch_write_features ttl recs w ≡ (ok tt, w')
      → (cs : List Command) × (batch_commands ttl (c.turn w) recs ≡ ok cs) × (w' ≡ after laws w cs)
  unfolding batch_write_features after
  batch-executed ttl recs w w' h = elim (Result-cases (batch_commands ttl (c.turn w) recs)) [
    | inl (cs, e) ↦ (cs, e, laws.execute_lem cs w w' (ground arith))
    | inr (x, e) ↦ absurd (ground arith)
  ]

  -- When a batch has been written, with a positive lifetime, each field of each user holds the
  -- text of the last record of that user that has one for it, and what it held before if there is
  -- none: a record has the text of its value for each feature of the store that it gives, and for
  -- `computed_at` that of its time, or of the clock's at its turn of the loop if it gives none.
  pub stored-batch_write_features :
      (ttl : ℕ) (recs : List (Row F)) (w w' : W) (u k : String)
      → 0 < ttl
      → batch_write_features ttl recs w ≡ (ok tt, w')
      → stored laws w' u k ≡ or_else (latest (c.turn w) u k recs) (stored laws w u k)
  stored-batch_write_features ttl recs w w' u k pos_ttl h =
      let (cs, e, e') = batch-executed ttl recs w w' h in
      rw e' (stored-batch laws ttl pos_ttl (c.turn w) recs cs w u k e)

  -- When a batch has been written, with a positive lifetime, every user of it has the full
  -- lifetime left.
  pub ttl-batch_write_features :
      (ttl : ℕ) (recs : List (Row F)) (w w' : W) (u : String)
      → 0 < ttl
      → any (is_user u) recs ≡ true
      → batch_write_features ttl recs w ≡ (ok tt, w')
      → ttl_of w' (feature_key u) ≡ pos ttl
  ttl-batch_write_features ttl recs w w' u pos_ttl named h =
      let (cs, e, e') = batch-executed ttl recs w w' h in
      rw e' (ttl-batch laws ttl pos_ttl (c.turn w) recs cs w u e (inl named))

-- A batch in which some record names no user raises KeyError, and nothing of it is written.
pub batch_write_features_atomic :
    {W F : Type 0} ⦃r : Redis W⦄ ⦃f : Float F⦄ ⦃c : Clock W F⦄ (ttl : ℕ) (recs : List (Row F))
    (w : W)
    → any (λ rec. elim rec.user_id [ none ↦ true | some _ ↦ false ]) recs ≡ true
    → batch_write_features ttl recs w ≡ (err key_error, w)
unfolding batch_write_features
batch_write_features_atomic ⦃c⦄ ttl recs w h =
    ground (arith, batch_commands_raises ttl (c.turn w) recs h)
