-- ===== src/Airflow/Backfill.antt =====
-- airflow/dags/backfill_dag.py: the graph `validate >> run_spark_backfill >> verify`.
use feature_store.Common.{ℕ, String, ◌⋅◌, ◌≡◌, refl, arith, some, inl, inr}
use feature_store.Common.Dict.{Dict, lookup, get_or}
use feature_store.Common.Exec.{Exec, ok, pure, ◌>>=◌, ◌>>◌, Exec-cases}
use feature_store.Airflow.Dag.{Scheduler, SchedulerLaws, task, task-returned}

-- `datetime.now().strftime("%Y-%m-%d")`
pub record Calendar (W : Type 0) : Type 0 where
  pub today : W → String

-- the shell of a `BashOperator`, which raises when the command fails
pub record Shell (W : Type 0) : Type 0 where
  pub bash : String → Exec W (Unit {0})

-- `default_args["retries"]`
abbrev pub retries : ℕ
retries = 1

-- the `bash_command` with its two dates filled in
abbrev pub submit_command : String → String → String
submit_command start end =
    "docker exec fs-spark-master spark-submit --master spark://spark-master:7077 /opt/offline_store/backfill.py --start "
    ⋅ (start ⋅ (" --end " ⋅ end))

-- the templates of the command: `conf` is `dag_run.conf`, `ds_next` is `macros.ds_add(ds, 1)`
pub run_spark_backfill : Dict String → String → String
run_spark_backfill conf ds_next =
    submit_command (get_or "start_date" "2026-01-01" conf) (get_or "end_date" ds_next conf)

module _ {W : Type 0} ⦃k : Calendar W⦄ where
  -- the `start_date` and the `end_date` that the task pushes
  pub validate_date_range : Dict String → Exec W (String × String)
  validate_date_range conf w =
      (ok (get_or "start_date" "2026-01-01" conf, get_or "end_date" (k.today w) conf), w)

  module _ ⦃s : Scheduler W⦄ ⦃b : Shell W⦄ where
    -- what a run pushed; `verify_backfill` only prints
    pub run_backfill_graph : Dict String → String → Exec W (String × String)
    run_backfill_graph conf ds_next = do
      range ← task retries (validate_date_range conf)
      task retries (b.bash (run_spark_backfill conf ds_next))
      task retries (pure tt)
      pure range

module _ {W : Type 0} ⦃k : Calendar W⦄ ⦃s : Scheduler W⦄ ⦃b : Shell W⦄
    (scheduled : SchedulerLaws W) where
  -- When a run that is given an end date succeeds, the command has succeeded on the two dates
  -- that the first task pushed, of which the second is that date.
  pub run_backfill_graph_lem :
      (conf : Dict String) (ds_next end : String) (range : String × String) (w w' : W)
      → lookup "end_date" conf ≡ some end
      → run_backfill_graph conf ds_next w ≡ (ok range, w')
      → (range.1 ≡ end) × ((v v₁ : W) × (b.bash (submit_command range.0 range.1) v ≡ (ok tt, v₁)))
  unfolding run_backfill_graph validate_date_range run_spark_backfill
  run_backfill_graph_lem conf ds_next end range w w' given h =
      elim (Exec-cases (task retries (validate_date_range conf) w)) [
        | inr (y, u, e) ↦ absurd (ground arith)
        | inl (pushed, w₁, validated) ↦
            elim (Exec-cases (task retries (b.bash (run_spark_backfill conf ds_next)) w₁)) [
              | inr (y, u, e) ↦ absurd (ground arith)
              | inl (done, w₂, ran) ↦
                  let (v, got) = task-returned scheduled retries _ w w₁ pushed validated in
                  let (u, sent) = task-returned scheduled retries _ w₁ w₂ done ran in
                  let start = get_or "start_date" "2026-01-01" conf in
                  let verified =
                    scheduled.run_returns retries (pure tt) (s.queue w₂) (s.queue w₂) tt refl in
                  let dates : range ≡ (start, end) = ground (arith, got, given, verified) in
                  rw dates (refl, (u, w₂, ground (arith, sent, given)))
            ]
      ]
