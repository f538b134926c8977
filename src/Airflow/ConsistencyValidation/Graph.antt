-- ===== src/Airflow/ConsistencyValidation/Graph.antt =====
-- airflow/dags/consistency_validation_dag.py: the graph `validate >> branch >> [ok, trigger_rca]`.
pub mod Runs
use feature_store.Common.{ℕ, String, Option, some}
use feature_store.Common.Exec.{Exec, Result, ok, err, pure, ◌>>=◌, ◌>>◌}
use feature_store.Float.{Float}
use feature_store.Redis.{Redis}
use feature_store.Airflow.Dag.{Scheduler, task}
use feature_store.Airflow.DriftMonitoring.{MetricsTable}
use feature_store.Airflow.ConsistencyValidation.{
  Random, Comparison, sample_and_compare, Choice, trigger_rca, consistency_ok,
  branch_on_consistency,
}

-- the last task of a run, with the `worst_feature` that `trigger_rca` prints
pub data Ending : Type 0 where
  consistency_ok_done : Ending
  rca_triggered : Option String → Ending

-- what the tasks of a run pushed, and how it ended
pub record ConsistencyRun (F : Type 0) : Type 0 where
  pub pushed : Comparison F
  pub ending : Ending

-- `default_args["retries"]`
abbrev pub retries : ℕ
retries = 1

module _ {W F : Type 0} ⦃s : Scheduler W⦄ where
  -- the task that the branch chose; `consistency_ok` does nothing
  unfoldable pub chosen_task : Comparison F → Choice → Exec W Ending
  chosen_task pushed consistency_ok = pure consistency_ok_done
  chosen_task pushed trigger_rca = task retries (pure (rca_triggered pushed.worst_feature))

  module _ ⦃f : Float F⦄ ⦃r : Redis W⦄ ⦃x : Random W F⦄ ⦃m : MetricsTable W F⦄ where
    unfoldable pub run_consistency_validation : F → Exec W (ConsistencyRun F)
    run_consistency_validation threshold = do
      pushed ← task retries (sample_and_compare threshold)
      chosen ← task retries (pure (branch_on_consistency (some pushed.inconsistency_rate)))
      ending ← chosen_task pushed chosen
      pure (record { pushed = pushed; ending = ending })
