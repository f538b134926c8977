-- ===== src/Monitoring/DataFetcher.antt =====
-- monitoring/data_fetcher.py. The clients of HTTP and of the database are interfaces; that the
-- connections are made once and kept is left out.
use feature_store.Common.{ℕ, ◌⋅◌, ◌==◌, String, Option, none, some, List, [], ◌∷◌, if◌then◌else◌}
use feature_store.Common.Dict.{Dict, lookup}
use feature_store.Common.Exec.{Exec, Result, ok, err, pure, ◌>>=◌}
use feature_store.Float.{Float, fmin}
use feature_store.Redis.{Redis}
use feature_store.Tenacity.{Clock}
use feature_store.OnlineStore.KeySchema.{feature_key, user_index_key}

-- `SCARD`
pub record Cardinality (W : Type 0) : Type 0 where
  pub scard : String → Exec W ℕ

-- What `requests.get` returns, with what its method `json` does.
pub record HttpResponse (J : Type 0) : Type 0 where
  pub status_code : ℕ
  pub json : Result J

-- `requests.get(url, timeout=...)`, and the dicts that the code makes itself
pub record Http (W J : Type 0) : Type 0 where
  pub get : String → Exec W (HttpResponse J)
  pub dict_of : Dict String → J

-- The two queries, with the connection to the database.
pub record Tables (W M R : Type 0) : Type 0 where
  pub recent_metrics : ℕ → Exec W (List M)
  pub recent_rca : ℕ → Exec W (List R)

pub record Throughput (F : Type 0) : Type 0 where
  pub active_users : ℕ
  pub estimated_events_per_sec : F
  pub redis_keys : ℕ

-- `except Exception: return ...`
abbrev pub or_else_return : {W A : Type 0} → A → Exec W A → Exec W A
or_else_return a m w = let (r, w') = m w in elim r [ ok b ↦ (ok b, w') | err e ↦ (ok a, w') ]

module _ {F : Type 0} ⦃f : Float F⦄ where
  -- the age of one user, if the hash has a time that is a float
  abbrev pub age_of : F → Dict String → Option F
  age_of now features = elim (lookup "computed_at" features) [
    | none ↦ none
    | some text ↦ elim (f.parse text) [ none ↦ none | some ts ↦ some (f.round (f.sub now ts) 1) ]
  ]

module _ {W F : Type 0} ⦃r : Redis W⦄ ⦃f : Float F⦄ ⦃c : Clock W F⦄ where
  unfoldable pub read_ages : F → List String → Exec W (List (String × F))
  read_ages now [] = pure []
  read_ages now (uid ∷ user_ids) = do
    features ← r.hgetall (feature_key uid)
    rest ← read_ages now user_ids
    pure (elim (age_of now features) [ none ↦ rest | some age ↦ (uid, age) ∷ rest ])

  unfoldable pub fetch_feature_freshness : ℕ → Exec W (List (String × F))
  fetch_feature_freshness sample_n =
      r.srandmember user_index_key sample_n >>= λ user_ids w. read_ages (c.time w) user_ids w

module _ {W : Type 0} (k : Cardinality W) where
  abbrev pub fetch_active_user_count : Exec W ℕ
  fetch_active_user_count = k.scard user_index_key

  unfoldable pub fetch_throughput_metrics : {F : Type 0} ⦃f : Float F⦄ → Exec W (Throughput F)
  fetch_throughput_metrics ⦃f⦄ = do
    n ← k.scard user_index_key
    pure (record {
      active_users = n;
      estimated_events_per_sec = fmin (f.mul (f.of_nat n) (f.lit 1 1)) (f.of_nat 500);
      redis_keys = n;
    })

module _ {W J : Type 0} (h : Http W J) where
  unfoldable pub fetch_api_health : String → Exec W J
  fetch_api_health api_url =
      or_else_return
        (h.dict_of (("status", "unreachable") ∷ ("redis", "unknown") ∷ ("db", "unknown") ∷ []))
        (h.get (api_url ⋅ "/health") >>= λ resp w. (resp.json, w))

  -- `{}` unless the answer is 200 with a body
  unfoldable pub fetch_feature_sample : String → String → Exec W J
  fetch_feature_sample api_url user_id = or_else_return (h.dict_of []) (
      h.get (api_url ⋅ "/features/" ⋅ user_id) >>= λ resp w.
      if resp.status_code == 200 then (resp.json, w) else (ok (h.dict_of []), w))

module _ {W M R : Type 0} (t : Tables W M R) where
  unfoldable pub fetch_drift_metrics : ℕ → Exec W (List M)
  fetch_drift_metrics hours = or_else_return [] (t.recent_metrics hours)

  unfoldable pub fetch_rca_results : ℕ → Exec W (List R)
  fetch_rca_results limit = or_else_return [] (t.recent_rca limit)
