-- ===== src/Airflow/ConsistencyValidation.antt =====
-- airflow/dags/consistency_validation_dag.py. What a task pushes is what its function returns.
pub mod Branch
pub mod Graph
use feature_store.Common.{
  ℕ, String, Bool, true, false, Option, none, some, List, [], ◌∷◌, is_empty, str_eq, if◌then◌else◌,
}
use feature_store.Common.Dict.{Dict, insert}
use feature_store.Common.Exec.{Exec, Result, ok, err, value_error, lift, pure, ◌>>=◌, ◌>>◌}
use feature_store.Float.{Float, nought, gt}
use feature_store.Redis.{Redis}
use feature_store.OnlineStore.KeySchema.{feature_key, user_index_key}
use feature_store.Validation.Consistency.{ConsistencyReport, validate_consistency}
use feature_store.Airflow.DriftMonitoring.{MetricsTable, write_metric}

-- `random.uniform(a, b)`, drawn from the world
pub record Random (W F : Type 0) : Type 0 where
  pub uniform : F → F → W → F × W

-- what `sample_and_compare` pushes; `worst_feature` is not pushed without users
pub record Comparison (F : Type 0) : Type 0 where
  pub inconsistency_rate : F
  pub worst_feature : Option String

module _ {F : Type 0} ⦃f : Float F⦄ where
  -- `{k: float(v) for k, v in data.items() if k != "computed_at"}`
  unfoldable pub floats_of : Dict String → Result (Dict F)
  floats_of [] = ok []
  floats_of ((k, v) ∷ features) =
      let rest = floats_of features in
      if str_eq k "computed_at" then rest else elim (f.parse v) [
        | none ↦ err value_error
        | some x ↦ elim rest [ ok d ↦ ok ((k, x) ∷ d) | err e ↦ err e ]
      ]

  module _ {W : Type 0} ⦃r : Redis W⦄ where
    -- the loop that reads the online features; a user without any is left out
    unfoldable pub read_online : List String → Dict (Dict F) → Exec W (Dict (Dict F))
    read_online [] online = pure online
    read_online (uid ∷ user_ids) online = do
      features ← r.hgetall (feature_key uid)
      if is_empty features
          then read_online user_ids online
          else (lift (floats_of features) >>= λ vals. read_online user_ids (insert uid vals online))

  module _ {W : Type 0} ⦃x : Random W F⦄ where
    -- `{k: v * (1 + random.uniform(-0.005, 0.005)) for k, v in vals.items()}`
    abbrev pub perturb : Dict F → W → Dict F × W
    perturb [] w = ([], w)
    perturb ((k, v) ∷ vals) w =
        let (u, w₁) = x.uniform (f.neg (f.lit 5 3)) (f.lit 5 3) w in
        let (rest, w₂) = perturb vals w₁ in ((k, f.mul v (f.add (f.lit 1 0) u)) ∷ rest, w₂)

    abbrev pub simulate_offline : Dict (Dict F) → W → Dict (Dict F) × W
    simulate_offline [] w = ([], w)
    simulate_offline ((uid, vals) ∷ online) w =
        let (near, w₁) = perturb vals w in
        let (rest, w₂) = simulate_offline online w₁ in ((uid, near) ∷ rest, w₂)

module _ {W F : Type 0} ⦃f : Float F⦄ ⦃r : Redis W⦄ ⦃x : Random W F⦄ ⦃m : MetricsTable W F⦄ where
  -- the comparison of what was read, and the metric that is written
  unfoldable pub compare_online : F → Dict (Dict F) → W → Comparison F × W
  compare_online threshold online w =
      let (offline, w₁) = simulate_offline online w in
      let report = validate_consistency threshold offline online in
      (
        record {
          inconsistency_rate = report.inconsistency_rate;
          worst_feature = elim report.worst_feature [
            | none ↦ some "none"
            | some k ↦ some (if str_eq k "" then "none" else k)
          ];
        },
        write_metric "all_features" "consistency_rate" (f.sub (f.lit 1 0) report.inconsistency_rate)
            w₁,
      )

  unfoldable pub sample_and_compare : F → Exec W (Comparison F)
  sample_and_compare threshold = do
    user_ids ← r.srandmember user_index_key 200
    if is_empty user_ids
        then pure (record { inconsistency_rate = nought; worst_feature = none })
        else (read_online user_ids [] >>= λ online w.
            let (comparison, w₁) = compare_online threshold online w in (ok comparison, w₁))

-- the task that the branch chooses
pub data Choice : Type 0 where
  trigger_rca consistency_ok : Choice

module _ {F : Type 0} ⦃f : Float F⦄ where
  -- `xcom_pull(...) or 0.0`
  abbrev or_zero : Option F → F
  or_zero none = nought
  or_zero (some rate) = if f.eq rate nought then nought else rate

  unfoldable pub branch_on_consistency : Option F → Choice
  branch_on_consistency pushed =
      if gt (or_zero pushed) (f.lit 5 2) then trigger_rca else consistency_ok
