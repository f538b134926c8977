-- ===== src/OnlineStore/Baselines.antt =====
-- online_store/redis_client.py: the two methods of `SyncRedisClient` for baselines, which stand
-- beside those of drift_detection/baseline_manager.py.
use feature_store.Common.{
  ◌*◌, ◌≡◌, refl, arith, inl, inr, String, Option, none, some, List, str_eq, if◌then◌else◌,
}
use feature_store.Common.Exec.{Exec, lift, pure, ◌>>=◌, Exec-cases}
use feature_store.Redis.{Redis}
use feature_store.OnlineStore.KeySchema.{baseline_key}
use feature_store.Drift.BaselineManager
use feature_store.Drift.BaselineManager.{Json, save_baseline, parse_baseline}

module _ {W F : Type 0} ⦃r : Redis W⦄ ⦃j : Json F⦄ where
  abbrev pub store_baseline : String → List F → Exec W (Unit {0})
  store_baseline feature_name distribution =
      r.set_ex (baseline_key feature_name) (j.dumps distribution) (86_400 * 7)

  -- `json.loads(raw) if raw else None`
  abbrev pub loads_if : Option String → Exec W (Option (List F))
  loads_if none = pure none
  loads_if (some raw) =
      if str_eq raw "" then pure none else (lift (j.loads raw) >>= λ xs. pure (some xs))

  abbrev pub load_baseline : String → Exec W (Option (List F))
  load_baseline feature_name = r.get (baseline_key feature_name) >>= loads_if

  loads_if-eq-parse_baseline : (o : Option String) → loads_if o ≡ parse_baseline o
  unfolding parse_baseline
  loads_if-eq-parse_baseline none = refl
  loads_if-eq-parse_baseline (some raw) = refl

  -- The two modules store a baseline under one key with one lifetime, and load it alike.
  same_baselines :
      (feature_name : String) (xs : List F) (w : W)
      → (store_baseline feature_name xs w ≡ save_baseline feature_name xs w)
        × (load_baseline feature_name w ≡ BaselineManager.load_baseline feature_name w)
  unfolding save_baseline BaselineManager.load_baseline parse_baseline
  same_baselines feature_name xs w = (
    refl,
    elim (Exec-cases (r.get (baseline_key feature_name) w)) [
      | inl (o, v, e) ↦ ground (arith, e, loads_if-eq-parse_baseline o)
      | inr (x, v, e) ↦ ground (arith, e)
    ],
  )
