-- ===== src/Streaming/RedisSink/Laws.antt =====
-- The sink against the batch write of the online store, and what rows without `get` do to it.
use feature_store.Common.{
  ℕ, String, ◌≡◌, refl, arith, Option, none, some, List, [], ◌∷◌, ◌++◌, if◌then◌else◌,
}
use feature_store.Common.Dict.{Dict}
use feature_store.Common.Exec.{Exn, ok, err}
use feature_store.Float.{Float, nought}
use feature_store.Redis.{Redis}
use feature_store.Tenacity.{Clock}
use feature_store.OnlineStore.KeySchema.{feature_names}
use feature_store.OnlineStore.Client.{Row}
use feature_store.Streaming.RedisSink.{
  RowLike, value_or_zero, sink_texts, sink_payload, sink_commands, write_features_to_redis,
}

-- A row of the frame as a dict: the user, and the columns that are not null.
pub record Columns (F : Type 0) : Type 0 where
  pub user : String
  pub column : String → Option F

module _ {F : Type 0} ⦃f : Float F⦄ where
  -- rows with a `get` as that of a dict
  abbrev pub dict_like : RowLike (Columns F) F
  dict_like = record { user_id = λ r. ok r.user; get = λ r k. ok (r.column k) }

  -- The record that the batch write takes for such a row: zero for a null, and no time of
  -- computation where it is null or zero.
  abbrev pub with_zeros : Columns F → List String → Dict F
  with_zeros r [] = []
  with_zeros r (k ∷ ks) = (k, value_or_zero (r.column k)) ∷ with_zeros r ks

  abbrev pub stamp : Option F → Dict F
  stamp none = []
  stamp (some t) = if f.eq t nought then [] else ("computed_at", t) ∷ []

  pub to_record : Columns F → Row F
  to_record r = record {
    user_id = some r.user;
    entries = with_zeros r feature_names ++ stamp (r.column "computed_at");
  }

module _ {W F : Type 0} ⦃r : Redis W⦄ ⦃f : Float F⦄ ⦃c : Clock W F⦄ where
  -- If `row["user_id"]` answers, but the rows have no `get`, as those of Spark have none, then a
  -- batch with any row raises what the missing method raises, and leaves the server as it was.
  pub write_features_to_redis_no_get :
      {R : Type 0} (like : RowLike R F) (e : Exn) (ttl : ℕ) (row : R) (rows : List R) (w : W)
      → ((x : R) → (u : String) × (like.user_id x ≡ ok u))
      → ((x : R) (column : String) → like.get x column ≡ err e)
      → write_features_to_redis like ttl (row ∷ rows) w ≡ (err e, w)
  unfolding write_features_to_redis sink_commands sink_payload sink_texts
  write_features_to_redis_no_get like e ttl row rows w named no_get =
      ground (arith, (named row).1, no_get row "txn_count_5m")

  pub write_features_to_redis_none :
      {R : Type 0} (like : RowLike R F) (ttl : ℕ) (w : W)
      → write_features_to_redis like ttl [] w ≡ (ok tt, w)
  unfolding write_features_to_redis
  write_features_to_redis_none like ttl w = refl
