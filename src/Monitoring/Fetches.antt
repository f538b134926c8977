-- ===== src/Monitoring/Fetches.antt =====
-- What the fetches of the dashboard return.
use feature_store.Common.{
  ℕ, true, All, ◌≡◌, refl, sym, ap, ◌∙◌, arith, ◌⋅◌, ◌==◌, String, false, Option, none, some, List,
  [], ◌∷◌, str_eq, eq_iff, if◌then◌else◌, inl, inr, Bool-cases,
}
use feature_store.Common.Dict.{Dict, lookup}
use feature_store.Common.Exec.{Result, ok, err, Exec-cases}
use feature_store.Float.{Float, OrderLaws}
use feature_store.Redis.{Redis, RedisLaws}
use feature_store.Tenacity.{Clock}
use feature_store.OnlineStore.KeySchema.{feature_key, user_index_key}
use feature_store.Api.Vector.{FeatureVector, FeatureResponse, read_vector}
use feature_store.Api.Features.{freshness, respond, get_features}
use feature_store.Monitoring.DataFetcher.{
  Cardinality, Http, HttpResponse, Tables, Throughput, age_of, read_ages, fetch_feature_freshness,
  fetch_throughput_metrics, fetch_api_health, fetch_feature_sample, fetch_drift_metrics,
  fetch_rca_results,
}

abbrev pub with_age : {F : Type 0} → String → Option F → List (String × F) → List (String × F)
with_age uid none rest = rest
with_age uid (some age) rest = (uid, age) ∷ rest

-- a hash whose texts of the features are floats
abbrev pub IsReadable : (F : Type 0) ⦃f : Float F⦄ → Dict String → Type 0
IsReadable F raw = (vector : FeatureVector F) × (read_vector raw ≡ ok vector)

module _ {F : Type 0} ⦃f : Float F⦄ where
  -- The age in an answer of the API; one that is an error has none.
  abbrev pub age_in : Result (FeatureResponse F) → Option F
  age_in (ok response) = response.metadata.freshness_seconds
  age_in (err e) = none

  age_of-eq-freshness :
      (now : F) (features : Dict String)
      → f.parse "" ≡ none
      → age_of now features ≡ freshness now (lookup "computed_at" features)
  unfolding freshness
  age_of-eq-freshness now features empty = parsed (lookup "computed_at" features)
    where
      parsed :
          (o : Option String)
          → (elim o [
            | none ↦ none
            | some text ↦ elim (f.parse text) [
              | none ↦ none
              | some ts ↦ some (f.round (f.sub now ts) 1)
            ]
          ])
            ≡ freshness now o
      parsed none = refl
      parsed (some text) = elim (Bool-cases (str_eq text "")) [
        | inl e ↦ ground (arith, empty, ap f.parse ((eq_iff text "").0 e))
        | inr e ↦ ground arith
      ]

module _ {W F : Type 0} ⦃r : Redis W⦄ ⦃f : Float F⦄ ⦃c : Clock W F⦄ (laws : RedisLaws W) where
  -- The ages in the answers that the API gives, in a world, to requests for these users.
  abbrev pub api_ages : W → List String → List (String × F)
  api_ages w [] = []
  api_ages w (uid ∷ user_ids) =
      with_age uid (age_in (get_features uid none true w).0) (api_ages w user_ids)

  -- The API's answer for a user whose hash is read.
  age_in-get_features :
      (uid : String) (features : Dict String) (w : W)
      → f.parse "" ≡ none
      → r.hgetall (feature_key uid) w ≡ (ok features, w)
      → IsReadable F features
      → age_in {F = F} (get_features uid none true w).0 ≡ age_of (c.time w) features
  unfolding get_features respond lookup
  age_in-get_features uid [] w empty read (vector, readable) = ground (arith, read)
  age_in-get_features uid (e ∷ features) w empty read (vector, readable) =
      ground (arith, read, readable, age_of-eq-freshness (c.time w) (e ∷ features) empty)

  read_ages-eq-api_ages :
      (user_ids : List String) (w w' : W) (ages : List (String × F))
      → f.parse "" ≡ none
      → All (λ uid. IsReadable F (laws.hash w (feature_key uid))) user_ids
      → read_ages (c.time w) user_ids w ≡ (ok ages, w')
      → (ages ≡ api_ages w user_ids) × (w' ≡ w)
  unfolding read_ages
  read_ages-eq-api_ages [] w w' ages empty _ h = ground arith
  read_ages-eq-api_ages (uid ∷ user_ids) w w' ages empty (readable, others) h =
      elim (Exec-cases (r.hgetall (feature_key uid) w)) [
        | inl (features, w₁, e) ↦
            let (hash, same) = laws.hgetall_lem (feature_key uid) w w₁ features e in
            let read : r.hgetall (feature_key uid) w ≡ (ok features, w) = ground (arith, e, same) in
            elim (Exec-cases (read_ages {F = F} (c.time w) user_ids w)) [
              | inl (rest, w₂, e') ↦
                  let (ih, same') = read_ages-eq-api_ages user_ids w w₂ rest empty others e' in
                  let listed : ages ≡ with_age uid (age_of (c.time w) features) rest =
                    ground (arith, read, e') in
                  let age = age_in-get_features uid features w empty read (rw hash readable) in
                  (
                    listed
                        ∙ ap (λ o. with_age uid o rest) (sym age)
                        ∙ ap (with_age uid (age_in (get_features uid none true w).0)) ih,
                    ground (arith, read, e', same'),
                  )
              | inr (x, w₂, e') ↦ absurd (ground (arith, read, e'))
            ]
        | inr (x, w₁, e) ↦ absurd (ground arith)
      ]

  -- If the empty text is no float, and the users that the dashboard samples have only floats for
  -- texts of their features: the ages that it shows are those in the answers that the API's
  -- handler gives to requests for these users in the world of the sample, and users for whom the
  -- answer has none are left out.
  pub fetch_feature_freshness-eq-freshness :
      (sample_n : ℕ) (user_ids : List String) (w w₁ w' : W) (ages : List (String × F))
      → f.parse "" ≡ none
      → r.srandmember user_index_key sample_n w ≡ (ok user_ids, w₁)
      → All (λ uid. IsReadable F (laws.hash w₁ (feature_key uid))) user_ids
      → fetch_feature_freshness sample_n w ≡ (ok ages, w')
      → ages ≡ api_ages w₁ user_ids
  unfolding fetch_feature_freshness
  fetch_feature_freshness-eq-freshness sample_n user_ids w w₁ w' ages empty sampled readable h =
      (read_ages-eq-api_ages user_ids w₁ w' ages empty readable (ground (arith, sampled))).0

module _ {W J : Type 0} (h : Http W J) where
  -- the body of an answer, or what stands in for it
  abbrev pub body_or : J → Result (HttpResponse J) → J
  body_or j (err e) = j
  body_or j (ok resp) = elim resp.json [ ok b ↦ b | err e ↦ j ]

  abbrev pub sample_or : J → Result (HttpResponse J) → J
  sample_or j (err e) = j
  sample_or j (ok resp) =
      if resp.status_code == 200 then (elim resp.json [ ok b ↦ b | err e ↦ j ]) else j

  -- The two fetches from the API never raise. The health is the body of the answer, and the
  -- "unreachable" dict if the request or the reading of the body raises; the sample is the body of
  -- an answer with status 200, and an empty dict otherwise.
  pub fetch_api_returns :
      (api_url user_id : String) (w : W)
      → (fetch_api_health h api_url w ≡ (
        ok (
            body_or
              (h.dict_of
                (("status", "unreachable") ∷ ("redis", "unknown") ∷ ("db", "unknown") ∷ []))
              (h.get (api_url ⋅ "/health") w).0),
        (h.get (api_url ⋅ "/health") w).1,
      ))
        × (fetch_feature_sample h api_url user_id w ≡ (
          ok (sample_or (h.dict_of []) (h.get (api_url ⋅ "/features/" ⋅ user_id) w).0),
          (h.get (api_url ⋅ "/features/" ⋅ user_id) w).1,
        ))
  unfolding fetch_api_health fetch_feature_sample
  fetch_api_returns api_url user_id w = (ground arith, ground arith)

module _ {W M R : Type 0} (t : Tables W M R) where
  -- The two fetches from the database never raise: a query that raises gives no rows.
  pub fetch_tables_return :
      (hours limit : ℕ) (w : W)
      → (fetch_drift_metrics t hours w ≡ (
        ok (elim (t.recent_metrics hours w).0 [ ok rows ↦ rows | err e ↦ [] ]),
        (t.recent_metrics hours w).1,
      ))
        × (fetch_rca_results t limit w ≡ (
          ok (elim (t.recent_rca limit w).0 [ ok rows ↦ rows | err e ↦ [] ]),
          (t.recent_rca limit w).1,
        ))
  unfolding fetch_drift_metrics fetch_rca_results
  fetch_tables_return hours limit w = (ground arith, ground arith)

-- The estimate of the throughput is at most 500, and the two counts are one.
pub fetch_throughput_metrics_bound :
    {W F : Type 0} ⦃f : Float F⦄
    → OrderLaws F
    → (k : Cardinality W) (w w' : W) (m : Throughput F) → fetch_throughput_metrics k w ≡ (ok m, w')
    → (f.lt (f.of_nat 500) m.estimated_events_per_sec ≡ false) × (m.active_users ≡ m.redis_keys)
unfolding fetch_throughput_metrics
fetch_throughput_metrics_bound ⦃f⦄ order k w w' m h = elim (Exec-cases (k.scard user_index_key w)) [
  | inl (n, w₁, e) ↦ ground (arith, order.lt_irrefl (f.of_nat 500))
  | inr (x, w₁, e) ↦ absurd (ground arith)
]
