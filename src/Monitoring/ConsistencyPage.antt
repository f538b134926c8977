-- ===== src/Monitoring/ConsistencyPage.antt =====
-- monitoring/pages/04_consistency_checks.py: the live check, with its simulated offline store; and
-- the count of old features of monitoring/pages/01_feature_freshness.py.
use feature_store.Common.{ℕ, ◌≡◌, refl, ap, suc, String, List, [], ◌∷◌, length, count}
use feature_store.Common.Dict.{Dict}
use feature_store.Common.Exec.{Exec, ok, ◌>>=◌}
use feature_store.Float.{Float, nought, gt}
use feature_store.Redis.{Redis}
use feature_store.OnlineStore.KeySchema.{user_index_key}
use feature_store.Validation.Consistency.{ConsistencyReport, validate_consistency}
use feature_store.Airflow.ConsistencyValidation.{read_online}

-- `random.gauss(mu, sigma)`, drawn from the world
pub record Gauss (W F : Type 0) : Type 0 where
  pub gauss : F → F → W → F × W

module _ {F : Type 0} ⦃f : Float F⦄ where
  -- `(df["freshness_seconds"] > 300).sum()`
  abbrev pub sla_violations : List (String × F) → ℕ
  sla_violations = count (λ r. gt r.1 (f.of_nat 300))

  module _ {W : Type 0} (g : Gauss W F) where
    -- `{k: v * (1 + random.gauss(0, 0.003)) for k, v in vals.items()}`
    abbrev pub shake : Dict F → W → Dict F × W
    shake [] w = ([], w)
    shake ((k, v) ∷ vals) w =
        let (u, w₁) = g.gauss nought (f.lit 3 3) w in
        let (rest, w₂) = shake vals w₁ in ((k, f.mul v (f.add (f.lit 1 0) u)) ∷ rest, w₂)

    abbrev pub shake_users : Dict (Dict F) → W → Dict (Dict F) × W
    shake_users [] w = ([], w)
    shake_users ((uid, vals) ∷ online) w =
        let (near, w₁) = shake vals w in
        let (rest, w₂) = shake_users online w₁ in ((uid, near) ∷ rest, w₂)

    -- The check of what was read, with the users of 200 that have features.
    abbrev pub live_check : ⦃r : Redis W⦄ → F → Exec W (ConsistencyReport F)
    live_check ⦃r⦄ threshold = r.srandmember user_index_key 200 >>= λ user_ids.
        read_online user_ids [] >>= λ online w.
        let (offline, w₁) = shake_users online w in
        (ok (validate_consistency threshold offline online), w₁)

    -- The simulated store has as many users as the online one.
    length-shake_users :
        (online : Dict (Dict F)) (w : W) → length (shake_users online w).0 ≡ length online
    length-shake_users [] w = refl
    length-shake_users ((uid, vals) ∷ online) w =
        ap suc (length-shake_users online (shake vals w).1)
