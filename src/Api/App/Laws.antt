-- ===== src/Api/App/Laws.antt =====
-- What the lives of the server leave, and what the middleware adds to an answer.
use feature_store.Common.{
  ℕ, ◌≡◌, ◌≢◌, refl, sym, ◌∙◌, arith, inl, inr, String, true, List, [], ◌∷◌, any, All, str_eq, some,
  false, if◌then◌else◌,
}
use mathlib.Core.Path.{subst}
use feature_store.Common.Dict.{lookup, insert, lookup-insert}
use feature_store.Common.Exec.{Exec, Result, ok, err, Exec-cases, http_exception}
use feature_store.Float.{Float}
use feature_store.Diagnostics.Schemas.{Format}
use feature_store.Diagnostics.Rules.{prefix}
use feature_store.Registry.Models.{FeatureDefinition, Session, SessionLaws}
use feature_store.Registry.Service.{get_feature_detail}
use feature_store.Registry.Seeding.{feature_seeds, seed_features}
use feature_store.Registry.Seeding.Planted.{is_planted}
use feature_store.Registry.Seeding.Laws.{
  every_seed_planted, planted_feature_found, seed_features_idle,
}
use feature_store.Api.App.{
  Reply, Tracing, Backend, RedisSettings, Request, redis_url, latency_text, with_headers, dispatch,
  serve, start_up, run_app,
}

module _ {J : Type 0} where
  -- What the middleware makes of an answer: the same exception, or the same status and body, with
  -- the identifier in its header, and each other header `k` as it was.
  abbrev pub HandedOn : String → String → Result (Reply J) → Result (Reply J) → Type 0
  HandedOn id k (err x) r = r ≡ err x
  HandedOn id k (ok x) (err e) = ⊥
  HandedOn id k (ok x) (ok y) =
      (y.status_code ≡ x.status_code)
      × (y.body ≡ x.body)
      × (lookup k y.headers ≡ (if str_eq "x-request-id" k then some id else lookup k x.headers))

  module _ {W F : Type 0} ⦃f : Float F⦄ ⦃p : Format F⦄ (t : Tracing W F) where
    handed_on :
        (id k latency : String) (x : Reply J)
        → str_eq "x-latency-ms" k ≡ false
        → HandedOn id k (ok x) (ok (with_headers id latency x))
    handed_on id k latency x other = (
      refl,
      refl,
      lookup-insert "x-latency-ms" k latency (insert "x-request-id" id x.headers)
          ∙ rw other (lookup-insert "x-request-id" k id x.headers),
    )

    -- The middleware hands on what the application raises, with the world that it leaves. An
    -- answer keeps its status and its body, gets the first eight characters of the drawn
    -- identifier as its `x-request-id`, and keeps every header but this and `x-latency-ms`.
    pub dispatch_hands_on :
        (q : Request W J) (w w' : W) (k : String) (r : Result (Reply J))
        → str_eq "x-latency-ms" k ≡ false
        → q (prefix 8 (t.uuid4 w).0) (t.uuid4 w).1 ≡ (r, w')
        → HandedOn (prefix 8 (t.uuid4 w).0) k r (dispatch t q w).0 × ((dispatch t q w).1 ≡ w')
    unfolding dispatch
    dispatch_hands_on q w w' k (ok x) other h =
        let id = prefix 8 (t.uuid4 w).0 in
        let latency = latency_text (t.perf_counter (t.uuid4 w).1) (t.perf_counter w') in
        let e : dispatch t q w ≡ (ok (with_headers id latency x), w') = ground arith in
        subst (λ z. HandedOn id k (ok x) z.0 × (z.1 ≡ w')) (sym e)
          (handed_on id k latency x other, refl)
    dispatch_hands_on q w w' k (err x) other h = (ground arith, ground arith)

module _ {W F : Type 0} ⦃s : Session W F⦄ (laws : SessionLaws W F) where
  open laws use {features, lineage}

  -- The same definitions, with the same lineage.
  abbrev pub SameRegistry : W → W → Type 0
  SameRegistry w w' = (features w' ≡ features w) × (lineage w' ≡ lineage w)

  -- A call that leaves the registry as it is, whether it returns or raises.
  abbrev pub LeavesRegistry : {A : Type 0} → Exec W A → Type 0
  LeavesRegistry {A} m = (w w' : W) (r : Result A) → m w ≡ (r, w') → SameRegistry w w'

  -- What is documented of the calls around the requests: none of them touches the rows of the
  -- registry, and tables that are there are not created again.
  pub record BackendLaws (b : Backend W) (t : Tracing W F) : Type 0 where
    pub connect_keeps : (url : String) (n : ℕ) → LeavesRegistry (b.connect url n)
    pub create_all_keeps : LeavesRegistry b.create_all
    pub aclose_keeps : LeavesRegistry b.aclose
    pub uuid4_keeps : (w : W) → SameRegistry w (t.uuid4 w).1

  module _ {b : Backend W} {t : Tracing W F} (outer : BackendLaws b t) ⦃f : Float F⦄
      ⦃p : Format F⦄ where
    chain : (u v w : W) → SameRegistry u v → SameRegistry v w → SameRegistry u w
    chain u v w (a, b) (c, d) = (c ∙ a, d ∙ b)

    dispatch_keeps :
        {J : Type 0} (q : Request W J)
        → ((id : String) → LeavesRegistry (q id))
        → LeavesRegistry (dispatch t q)
    unfolding dispatch
    dispatch_keeps q leaves w w' r h =
        let (uuid, w₁) = t.uuid4 w in
        elim (Exec-cases (q (prefix 8 uuid) w₁)) [
          | inl (x, w₂, e) ↦
              let end : w₂ ≡ w' = ground arith in
              subst (SameRegistry w) end
                (chain w w₁ w₂ (outer.uuid4_keeps w) (leaves (prefix 8 uuid) w₁ w₂ (ok x) e))
          | inr (x, w₂, e) ↦
              let end : w₂ ≡ w' = ground arith in
              subst (SameRegistry w) end
                (chain w w₁ w₂ (outer.uuid4_keeps w) (leaves (prefix 8 uuid) w₁ w₂ (err x) e))
        ]

    serve_keeps :
        {J : Type 0} (qs : List (Request W J)) (w : W)
        → All (λ q. (id : String) → LeavesRegistry (q id)) qs
        → SameRegistry w (serve t qs w).1
    unfolding serve
    serve_keeps [] w leave = (refl, refl)
    serve_keeps (q ∷ qs) w (leaves, leave) =
        let (reply, w₁) = dispatch t q w in
        chain w w₁ (serve t qs w₁).1 (dispatch_keeps q leaves w w₁ reply refl)
          (serve_keeps qs w₁ leave)

    start_up_seeds :
        (cfg : RedisSettings) (w w' : W)
        → start_up b s cfg w ≡ (ok tt, w')
        → (v : W) × SameRegistry w v × (seed_features s feature_seeds v ≡ (ok tt, w'))
    unfolding start_up
    start_up_seeds cfg w w' h =
        elim (Exec-cases (b.connect (redis_url cfg) cfg.redis_max_connections w)) [
          | inr (x, w₁, e) ↦ absurd (ground arith)
          | inl (x, w₁, e) ↦ elim (Exec-cases (b.create_all w₁)) [
            | inr (y, w₂, e') ↦ absurd (ground arith)
            | inl (y, w₂, e') ↦ (
              w₂,
              chain w w₁ w₂
                  (outer.connect_keeps (redis_url cfg) cfg.redis_max_connections w w₁ (ok x) e)
                  (outer.create_all_keeps w₁ w₂ (ok y) e'),
              ground arith,
            )
          ]
        ]

    -- Once the server has come up, and has answered any requests that leave the registry as it
    -- is, a request for a feature of the seeds that the database answers is no 404.
    pub served_feature_found :
        {J : Type 0} (cfg : RedisSettings) (qs : List (Request W J)) (k : String) (w w₁ w₂ : W)
        (rows : List FeatureDefinition)
        → any (λ x. str_eq x.feature.feature_name k) feature_seeds ≡ true
        → All (λ q. (id : String) → LeavesRegistry (q id)) qs
        → start_up b s cfg w ≡ (ok tt, w₁)
        → s.select_named k (serve t qs w₁).1 ≡ (ok rows, w₂)
        → (get_feature_detail s k (serve t qs w₁).1).0 ≢ err (http_exception 404)
    served_feature_found cfg qs k w w₁ w₂ rows listed leave up answer =
        let (v, same, seeded) = start_up_seeds cfg w w₁ up in
        let there = every_seed_planted laws feature_seeds v w₁ seeded in
        let (kept, lines) = serve_keeps qs w₁ leave in
        let still =
          subst (λ rs. All (λ x. is_planted rs x ≡ true) feature_seeds) (sym kept) there in
        planted_feature_found laws feature_seeds k (serve t qs w₁).1 w₂ rows listed still answer

    -- a life of the server that returns, by its start and the requests that it has answered
    lived :
        {J : Type 0} (cfg : RedisSettings) (qs : List (Request W J)) (w w' : W)
        (replies : List (Result (Reply J)))
        → All (λ q. (id : String) → LeavesRegistry (q id)) qs
        → run_app b s t cfg qs w ≡ (ok replies, w')
        → (v : W) × (start_up b s cfg w ≡ (ok tt, v)) × SameRegistry v w'
    unfolding run_app
    lived cfg qs w w' replies leave h = elim (Exec-cases (start_up b s cfg w)) [
      | inr (x, v, e) ↦ absurd (ground arith)
      | inl (x, v, e) ↦
          let u = (serve t qs v).1 in
          elim (Exec-cases (b.aclose u)) [
            | inr (y, u', e') ↦ absurd (ground arith)
            | inl (y, u', e') ↦
                let end : u' ≡ w' = ground arith in
                (
                  v,
                  ground (arith, e),
                  subst (SameRegistry v) end
                      (chain v u u' (serve_keeps qs v leave) (outer.aclose_keeps u u' (ok y) e')),
                )
          ]
    ]

    -- Two lives of the server that return, one after the other, with any requests that leave the
    -- registry as it is: the second leaves the definitions and the lineage of the first.
    pub run_app_restart :
        {J : Type 0} (cfg : RedisSettings) (qs rs : List (Request W J)) (w w₁ w₂ : W)
        (first second : List (Result (Reply J)))
        → All (λ q. (id : String) → LeavesRegistry (q id)) qs
        → All (λ q. (id : String) → LeavesRegistry (q id)) rs
        → run_app b s t cfg qs w ≡ (ok first, w₁)
        → run_app b s t cfg rs w₁ ≡ (ok second, w₂)
        → SameRegistry w₁ w₂
    run_app_restart cfg qs rs w w₁ w₂ first second leave leave' h h' =
        let (v₁, up₁, same₁) = lived cfg qs w w₁ first leave h in
        let (v₂, up₂, same₂) = lived cfg rs w₁ w₂ second leave' h' in
        let (u, _, seeded) = start_up_seeds cfg w v₁ up₁ in
        let (x, before, again) = start_up_seeds cfg w₁ v₂ up₂ in
        let there = every_seed_planted laws feature_seeds u v₁ seeded in
        let still =
          subst (λ rows. All (λ y. is_planted rows y ≡ true) feature_seeds)
            (sym (before.0 ∙ same₁.0)) there in
        chain w₁ v₂ w₂
          (chain w₁ x v₂ before (seed_features_idle laws feature_seeds x v₂ still again)) same₂
