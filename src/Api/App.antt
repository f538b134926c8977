-- ===== src/Api/App.antt =====
-- api/main.py and api/middleware.py: the life of the server, and what stands around each request.
-- The routing and the CORS headers are those of the framework; the requests are answered one after
-- the other.
pub mod Laws
use feature_store.Common.{ℕ, String, ◌⋅◌, List, [], ◌∷◌}
use feature_store.Common.Dict.{Dict, insert}
use feature_store.Common.Exec.{Exec, Result, ok, err, pure, ◌>>=◌, ◌>>◌}
use feature_store.Float.{Float}
use feature_store.Diagnostics.Schemas.{Format}
use feature_store.Diagnostics.Rules.{prefix}
use feature_store.Registry.Models.{Session}
use feature_store.Registry.Seeding.{feature_seeds, seed_features}

-- The names of headers are in lower case, as the framework keeps them.
pub record Reply (J : Type 0) : Type 0 where
  pub status_code : ℕ
  pub headers : Dict String
  pub body : J

-- `str(uuid.uuid4())` and `time.perf_counter()`
pub record Tracing (W F : Type 0) : Type 0 where
  pub uuid4 : W → String × W
  pub perf_counter : W → F

-- The pool of connections to Redis, and the tables of the database.
pub record Backend (W : Type 0) : Type 0 where
  pub connect : String → ℕ → Exec W (Unit {0})
  pub create_all : Exec W (Unit {0})
  pub aclose : Exec W (Unit {0})

pub record RedisSettings : Type 0 where
  pub redis_host : String
  pub redis_port : String
  pub redis_db : String
  pub redis_max_connections : ℕ

abbrev pub redis_url : RedisSettings → String
redis_url cfg = "redis://" ⋅ cfg.redis_host ⋅ ":" ⋅ cfg.redis_port ⋅ "/" ⋅ cfg.redis_db

-- A request as the middleware sees it: what the rest of the application does, by the identifier
-- that `request.state.request_id` has.
abbrev pub Request : Type 0 → Type 0 → Type 0
Request W J = String → Exec W (Reply J)

-- `f"{latency_ms:.2f}"`
abbrev pub latency_text : {F : Type 0} ⦃f : Float F⦄ ⦃p : Format F⦄ → F → F → String
latency_text ⦃f⦄ ⦃p⦄ start end = p.fixed 2 (f.mul (f.sub end start) (f.of_nat 1000))

abbrev pub with_headers : {J : Type 0} → String → String → Reply J → Reply J
with_headers request_id latency response = record response {
  headers = insert "x-latency-ms" latency (insert "x-request-id" request_id response.headers);
}

module _ {W F J : Type 0} ⦃f : Float F⦄ ⦃p : Format F⦄ (t : Tracing W F) where
  unfoldable pub dispatch : Request W J → Exec W (Reply J)
  dispatch call_next w =
      let (uuid, w₁) = t.uuid4 w in
      let request_id = prefix 8 uuid in
      let (answer, w₂) = call_next request_id w₁ in
      elim answer [
        | err e ↦ (err e, w₂)
        | ok response ↦
            let latency = latency_text (t.perf_counter w₁) (t.perf_counter w₂) in
            (ok (with_headers request_id latency response), w₂)
      ]

  -- the requests between the start and the end
  unfoldable pub serve : List (Request W J) → W → List (Result (Reply J)) × W
  serve [] w = ([], w)
  serve (request ∷ requests) w =
      let (reply, w₁) = dispatch request w in
      let (replies, w₂) = serve requests w₁ in (reply ∷ replies, w₂)

module _ {W F : Type 0} (b : Backend W) (s : Session W F) where
  -- `lifespan` up to its `yield`
  unfoldable pub start_up : RedisSettings → Exec W (Unit {0})
  start_up cfg =
      b.connect (redis_url cfg) cfg.redis_max_connections
      >> (b.create_all >> seed_features s feature_seeds)

  -- one life of the server
  unfoldable pub run_app :
      {J : Type 0} ⦃f : Float F⦄ ⦃p : Format F⦄
      → Tracing W F
      → RedisSettings
      → List (Request W J)
      → Exec W (List (Result (Reply J)))
  run_app t cfg requests =
      start_up cfg >> λ w. let (replies, w₁) = serve t requests w in (b.aclose >> pure replies) w₁
