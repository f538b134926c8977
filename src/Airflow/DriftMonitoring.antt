-- ===== src/Airflow/DriftMonitoring.antt =====
-- airflow/dags/drift_monitoring_dag.py. What a task pushes is what its function returns.
pub mod Branches
pub mod Graph
use feature_store.Common.{
  ℕ, String, Bool, true, false, Option, none, some, List, [], ◌∷◌, ◌++◌, map, take, is_empty,
  if◌then◌else◌,
}
use feature_store.Common.Dict.{Dict, lookup}
use feature_store.Common.Exec.{Exec, Result, ok, err, pure, ◌>>=◌, ◌>>◌}
use feature_store.Float.{Float, nought}
use feature_store.Numpy.{Numpy}
use feature_store.Redis.{Redis}
use feature_store.Tenacity.{Clock, Tenacity}
use feature_store.OnlineStore.KeySchema.{feature_key, user_index_key, feature_names}
use feature_store.Drift.BaselineManager.{Json}
use feature_store.Drift.Detector.{
  DriftConfig, FeatureDriftResult, DriftReport, has_critical_drift, detect_drift,
}
use feature_store.Diagnostics.Schemas
use feature_store.Diagnostics.Schemas.{Format, DiagnosticsConfig, RcaDiagnosis}
use feature_store.Diagnostics.RcaEngine.{Messages, Engine, analyze}

module _ {F : Type 0} where
  -- `if v`, and `v[:200]`
  unfoldable pub sampled : Dict (List F) → Dict (List F)
  sampled [] = []
  sampled ((k, v) ∷ feature_data) =
      let rest = sampled feature_data in if is_empty v then rest else (k, take 200 v) ∷ rest

module _ {F : Type 0} ⦃f : Float F⦄ where
  -- the values of one user, each behind those of its feature; a text that is no float is left out
  abbrev pub add_user : Dict String → Dict (List F) → Dict (List F)
  add_user features [] = []
  add_user features ((feature, xs) ∷ feature_data) =
      (
        feature,
        elim (lookup feature features) [
          | none ↦ xs
          | some s ↦ elim (f.parse s) [ none ↦ xs | some x ↦ xs ++ x ∷ [] ]
        ],
      )
      ∷ add_user features feature_data

  module _ {W : Type 0} ⦃r : Redis W⦄ where
    abbrev pub collect : List String → Dict (List F) → Exec W (Dict (List F))
    collect [] feature_data = pure feature_data
    collect (uid ∷ user_ids) feature_data = do
      features ← r.hgetall (feature_key uid)
      collect user_ids (add_user features feature_data)

    unfoldable pub load_current_distributions : Exec W (Dict (List F))
    load_current_distributions = do
      user_ids ← r.srandmember user_index_key 500
      feature_data ← collect user_ids (map (λ k. (k, [])) feature_names)
      pure (sampled feature_data)

-- The insertion into the table `feature_metrics`, through psycopg2: it connects, inserts, commits.
pub record MetricsTable (W F : Type 0) : Type 0 where
  pub insert : String → String → F → Exec W (Unit {0})

-- the values that `run_drift_detection` pushes; `drifting_features` is not pushed without data
pub record Outcome : Type 0 where
  pub has_drift : Bool
  pub drifting_features : Option (List String)

module _ {W F : Type 0} ⦃x : MetricsTable W F⦄ where
  -- every exception is printed and dropped
  abbrev pub write_metric : String → String → F → W → W
  write_metric feature_name metric_type value w = (x.insert feature_name metric_type value w).1

  abbrev pub write_metrics : List (FeatureDriftResult F) → W → W
  write_metrics [] w = w
  write_metrics (result ∷ results) w = write_metrics results (
      write_metric result.feature_name "ks_statistic" result.ks_statistic
        (write_metric result.feature_name "psi_score" result.psi_score w))

  module _ ⦃f : Float F⦄ ⦃n : Numpy F⦄ ⦃r : Redis W⦄ ⦃j : Json F⦄ ⦃c : Clock W F⦄ where
    unfoldable pub run_drift_detection : DriftConfig F → Dict (List F) → Exec W Outcome
    run_drift_detection cfg feature_data =
        if is_empty feature_data
        then pure (record { has_drift = false; drifting_features = none })
        else (detect_drift cfg feature_data >>= λ report w. (
          ok (record {
            has_drift = has_critical_drift report;
            drifting_features = some report.drifting_features;
          }),
          write_metrics report.feature_results w,
        ))

-- the task that the branch chooses
pub data Task : Type 0 where
  run_rca drift_ok : Task

unfoldable pub branch_on_drift : Outcome → Task
branch_on_drift outcome = if outcome.has_drift then run_rca else drift_ok

-- the report with the placeholder figures
abbrev pub placeholder_report : {F : Type 0} ⦃f : Float F⦄ → String → F → Schemas.DriftReport F
placeholder_report ⦃f⦄ feature_name now = record {
  feature_name = feature_name;
  psi_score = f.lit 25 2;
  ks_statistic = f.lit 15 2;
  ks_p_value = f.lit 2 2;
  z_score = f.lit 35 1;
  severity = "alert";
  baseline_period = "last_7d";
  current_period = "last_1h";
  sample_size = 500;
  kl_divergence = nought;
  computed_at = now;
}

module _ {W F : Type 0} ⦃f : Float F⦄ ⦃p : Format F⦄ ⦃c : Clock W F⦄ ⦃m : Messages W F⦄
    ⦃t : Tenacity (Engine W)⦄ where
  -- `drifting[0]`, if there is one
  abbrev pub analyze_first :
      DiagnosticsConfig → List String → Engine W → Option (RcaDiagnosis F) × Engine W
  analyze_first cfg [] e = (none, e)
  analyze_first cfg (feature_name ∷ _) e =
      let (diagnosis, e₁) = analyze cfg (placeholder_report feature_name (c.time e.world)) none e in
      (some diagnosis, e₁)

  -- `xcom_pull(...) or []`
  abbrev pub run_rca_analysis :
      DiagnosticsConfig → Outcome → Engine W → Option (RcaDiagnosis F) × Engine W
  run_rca_analysis cfg outcome =
      analyze_first cfg (elim outcome.drifting_features [ none ↦ [] | some ks ↦ ks ])
