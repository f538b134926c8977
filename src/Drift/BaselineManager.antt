-- ===== src/Drift/BaselineManager.antt =====
-- drift_detection/baseline_manager.py. A list of floats as JSON text is an interface: the
-- standard library's `json` is not part of the repository.
pub mod Laws
use feature_store.Common.{
  ℕ, ◌≡◌, String, Bool, true, false, Option, none, some, List, [], ◌∷◌, str_eq, is_empty, ltb,
  if◌then◌else◌,
}
use feature_store.Common.Dict.{Dict}
use feature_store.Common.Exec.{Exec, Result, ok, lift, pure, ◌>>=◌, ◌>>◌}
use feature_store.Redis.{Redis}
use feature_store.OnlineStore.KeySchema.{baseline_key}

pub record Json (F : Type 0) : Type 0 where
  pub dumps : List F → String
  pub loads : String → Result (List F)

-- The text of `xs` is not empty, and reads back as `xs`.
abbrev pub ReadsBack : {F : Type 0} ⦃j : Json F⦄ → List F → Type 0
ReadsBack ⦃j⦄ xs = (str_eq (j.dumps xs) "" ≡ false) × (j.loads (j.dumps xs) ≡ ok xs)

abbrev pub baseline_ttl_seconds : ℕ
baseline_ttl_seconds = 604800

module _ {W : Type 0} ⦃r : Redis W⦄ where
  abbrev pub baseline_exists : String → Exec W Bool
  baseline_exists feature_name = r.exists (baseline_key feature_name) >>= λ n. pure (ltb 0 n)

module _ {W F : Type 0} ⦃r : Redis W⦄ ⦃j : Json F⦄ where
  unfoldable pub save_baseline : String → List F → Exec W (Unit {0})
  save_baseline feature_name values =
      r.set_ex (baseline_key feature_name) (j.dumps values) baseline_ttl_seconds

  -- `None` where the server has no text, or an empty one
  unfoldable pub parse_baseline : Option String → Exec W (Option (List F))
  parse_baseline none = pure none
  parse_baseline (some raw) =
      if str_eq raw "" then pure none else (lift (j.loads raw) >>= λ xs. pure (some xs))

  unfoldable pub load_baseline : String → Exec W (Option (List F))
  load_baseline feature_name = r.get (baseline_key feature_name) >>= parse_baseline

  -- A failed write ends the loop.
  unfoldable pub refresh_all_baselines : Dict (List F) → Exec W (Unit {0})
  refresh_all_baselines [] = pure tt
  refresh_all_baselines ((feature_name, values) ∷ feature_data) =
      let rest = refresh_all_baselines feature_data in
      if is_empty values then rest else (save_baseline feature_name values >> rest)
