-- ===== src/Airflow/DriftMonitoring/Graph.antt =====
-- airflow/dags/drift_monitoring_dag.py: the graph `load >> detect >> branch >> [ok, rca]`.
pub mod Runs
use feature_store.Common.{ℕ, String, List, Option, none, some, false}
use feature_store.Common.Dict.{Dict}
use feature_store.Common.Exec.{Exec, Result, ok, err, pure, ◌>>=◌, ◌>>◌}
use feature_store.Float.{Float}
use feature_store.Numpy.{Numpy}
use feature_store.Redis.{Redis}
use feature_store.Tenacity.{Clock, Tenacity}
use feature_store.Drift.BaselineManager.{Json}
use feature_store.Drift.Detector.{DriftConfig}
use feature_store.Diagnostics.Schemas.{Format, DiagnosticsConfig, RcaDiagnosis}
use feature_store.Diagnostics.RcaEngine.{Messages, Engine}
use feature_store.Airflow.Dag.{Scheduler, task}
use feature_store.Airflow.DriftMonitoring.{
  load_current_distributions, Outcome, MetricsTable, run_drift_detection, Task, run_rca, drift_ok,
  branch_on_drift, run_rca_analysis,
}

-- the last task of a run, with the diagnosis that `run_rca` made, if it made one
pub data Ending (F : Type 0) : Type 0 where
  drift_ok_done : Ending F
  run_rca_done : Option (RcaDiagnosis F) → Ending F

-- what the tasks of a run pushed, and how it ended
pub record DriftRun (F : Type 0) : Type 0 where
  pub feature_data : Dict (List F)
  pub outcome : Outcome
  pub ending : Ending F

-- `default_args["retries"]`
abbrev pub retries : ℕ
retries = 1

module _ {W F : Type 0} ⦃f : Float F⦄ ⦃p : Format F⦄ ⦃c : Clock W F⦄ ⦃m : Messages W F⦄
    ⦃t : Tenacity (Engine W)⦄ where
  -- the callable of `run_rca`, in a process of its own, whose engine has no client yet
  unfoldable pub rca_task : DiagnosticsConfig → Outcome → Exec W (Option (RcaDiagnosis F))
  rca_task dcfg outcome w =
      let (diagnosis, e) =
        run_rca_analysis dcfg outcome (record { has_client = false; world = w }) in
      (ok diagnosis, e.world)

  module _ ⦃s : Scheduler W⦄ where
    -- the task that the branch chose; the other one is skipped, and `drift_ok` does nothing
    unfoldable pub chosen_task : DiagnosticsConfig → Outcome → Task → Exec W (Ending F)
    chosen_task dcfg outcome drift_ok = pure drift_ok_done
    chosen_task dcfg outcome run_rca =
        task retries (rca_task dcfg outcome) >>= λ diagnosis. pure (run_rca_done diagnosis)

    module _ ⦃n : Numpy F⦄ ⦃r : Redis W⦄ ⦃j : Json F⦄ ⦃x : MetricsTable W F⦄ where
      unfoldable pub run_drift_monitoring : DriftConfig F → DiagnosticsConfig → Exec W (DriftRun F)
      run_drift_monitoring cfg dcfg = do
        feature_data ← task retries load_current_distributions
        outcome ← task retries (run_drift_detection cfg feature_data)
        chosen ← task retries (pure (branch_on_drift outcome))
        ending ← chosen_task dcfg outcome chosen
        pure (record { feature_data = feature_data; outcome = outcome; ending = ending })
