-- ===== src/Api/Health.antt =====
-- api/routers/health.py
use feature_store.Common.{
  ℕ, String, ◌≡◌, ◌↔◌, refl, arith, Bool, true, false, ◌&&◌, str_eq, eq_iff, if◌then◌else◌,
}
use feature_store.Common.Exec.{Exec, Result, ok, err}
use feature_store.Redis.{Redis}
use feature_store.Tenacity.{Clock}

-- The session's `execute(text("SELECT 1"))`.
pub record Probe (W : Type 0) : Type 0 where
  pub select_one : Exec W (Unit {0})

pub record HealthResponse (F : Type 0) : Type 0 where
  pub status : String
  pub redis : String
  pub db : String
  pub timestamp : F

-- "ok", or "error" if the call raises
abbrev pub status_of : {A : Type 0} → Result A → String
status_of (ok _) = "ok"
status_of (err _) = "error"

pub overall : String → String → String
overall redis_status db_status =
    if str_eq redis_status "ok" && str_eq db_status "ok" then "healthy" else "degraded"

module _ {W : Type 0} ⦃r : Redis W⦄ where
  module _ {F : Type 0} ⦃s : Probe W⦄ ⦃c : Clock W F⦄ where
    pub health : W → HealthResponse F × W
    health w =
        let (pinged, w₁) = r.ping w in
        let (selected, w₂) = s.select_one w₁ in
        let redis_status = status_of pinged in
        let db_status = status_of selected in
        (
          record {
            status = overall redis_status db_status;
            redis = redis_status;
            db = db_status;
            timestamp = c.time w₂;
          },
          w₂,
        )

  -- the status code of the reply, and the `ready` in it
  pub ready : W → (ℕ × Bool) × W
  ready w =
      let (pinged, w₁) = r.ping w in (elim pinged [ ok _ ↦ (200, true) | err _ ↦ (503, false) ], w₁)

overall_iff :
    (a b : Result (Unit {0}))
    → (overall (status_of a) (status_of b) ≡ "healthy") ↔ ((a ≡ ok tt) × (b ≡ ok tt))
unfolding overall
overall_iff (ok _) (ok _) = (λ _. (refl, refl), λ _. refl)
overall_iff (ok _) (err e) = ground (arith, eq_iff "degraded" "healthy")
overall_iff (err e) (ok _) = ground (arith, eq_iff "degraded" "healthy")
overall_iff (err e) (err e') = ground (arith, eq_iff "degraded" "healthy")

-- The service is "healthy" exactly if the cache answers the ping and then the database the
-- query, and it is ready exactly if the cache answers.
pub health_iff :
    {W : Type 0} (F : Type 0) ⦃r : Redis W⦄ ⦃s : Probe W⦄ ⦃c : Clock W F⦄ (w : W)
    → (((health {F = F} w).0.status ≡ "healthy")
        ↔ (((r.ping w).0 ≡ ok tt) × ((s.select_one (r.ping w).1).0 ≡ ok tt)))
      × (((ready w).0 ≡ (200, true)) ↔ ((r.ping w).0 ≡ ok tt))
unfolding health ready
health_iff F ⦃r⦄ ⦃s⦄ w = (overall_iff (r.ping w).0 (s.select_one (r.ping w).1).0, ground arith)
