-- ===== src/Examples/Consistency.antt =====
-- Examples for the consistency graph.
use feature_store.Common.{String, ◌≡◌, ◌⊎◌, refl, true, none, some, List, [], ◌∷◌}
use feature_store.Common.Dict.{Dict, lookup, insert}
use feature_store.Common.Exec.{Result, ok, err}
use feature_store.Float.{nought, fsum}
use feature_store.Float.Fixed.{Fixed, fixed_float, Fixed-OrderLaws, read, value}
use feature_store.Redis.Memory.{Memory, memory_redis}
use feature_store.Float.Int.{◌+ℤ◌, ◌-ℤ◌, ◌*ℤ◌}
use feature_store.Validation.Consistency.{
  relative_deviation, deviation, flag_user, count_inconsistent, feature_deviations, mean_deviation,
  per_feature, lead, worst_of, validate_consistency,
}
use feature_store.OnlineStore.KeySchema.{user_index_key}
use feature_store.Airflow.DriftMonitoring.{MetricsTable}
use feature_store.Airflow.ConsistencyValidation.{
  Random, compare_online, floats_of, read_online, simulate_offline, sample_and_compare,
  branch_on_consistency,
}
use feature_store.Airflow.Dag.Simple.{simple_scheduler, simple-SchedulerLaws, attempts, or_again}
use feature_store.Airflow.ConsistencyValidation.Graph.{
  ConsistencyRun, consistency_ok_done, rca_triggered, chosen_task, run_consistency_validation,
}
use feature_store.Airflow.ConsistencyValidation.Graph.Runs.{EndsAs, run_consistency_validation_lem}
use feature_store.Examples.World.{ann}

instance abbrev upward : Random Memory Fixed
upward = record { uniform = λ a b w. (b, w) }

instance abbrev no_table : MetricsTable Memory Fixed
no_table = record { insert = λ k t v w. (ok tt, w) }

-- one active user with two features and a time
abbrev active : Memory
active = record {
  up = true;
  hash = λ k.
      ("anomaly_score", "+000000000000000000001")
      ∷ ("txn_count_5m", "+000000001")
      ∷ ("computed_at", "+1")
      ∷ [];
  expiry = λ k. some 200;
  members = λ k. ann ∷ [];
  text = λ k. none;
}

abbrev threshold : Fixed
threshold = fixed_float.lit 1 3

abbrev run_of : Result (ConsistencyRun Fixed) → ConsistencyRun Fixed
run_of (ok x) = x
run_of (err e) = record {
  pushed = record { inconsistency_rate = nought; worst_feature = none };
  ending = consistency_ok_done;
}

abbrev run : ConsistencyRun Fixed
run = run_of (run_consistency_validation threshold active).0

run_triggers : run.ending ≡ rca_triggered (some "anomaly_score")
unfolding run_consistency_validation sample_and_compare compare_online attempts or_again read_online
    floats_of read value chosen_task branch_on_consistency validate_consistency count_inconsistent
    flag_user per_feature worst_of lead relative_deviation deviation feature_deviations
    mean_deviation lookup insert fsum ◌+ℤ◌ ◌-ℤ◌ ◌*ℤ◌
run_triggers = refl

run_consistency_validation_lem_example :
    (v v₁ : Memory) × (users : List String) × (memory_redis.srandmember user_index_key 200 v
      ≡ (ok users, v₁))
    × (((users ≡ []) × (run.ending ≡ consistency_ok_done))
        ⊎ ((online : Dict (Dict Fixed)) × (v₂ : Memory) × (read_online users [] v₁
              ≡ (ok online, v₂))
            × EndsAs
                (validate_consistency threshold (simulate_offline online v₂).0 online)
                run.ending))
unfolding run_consistency_validation sample_and_compare compare_online attempts or_again read_online
    floats_of read value chosen_task branch_on_consistency validate_consistency count_inconsistent
    flag_user per_feature worst_of lead relative_deviation deviation feature_deviations
    mean_deviation lookup insert fsum ◌+ℤ◌ ◌-ℤ◌ ◌*ℤ◌
run_consistency_validation_lem_example =
    run_consistency_validation_lem Fixed-OrderLaws simple-SchedulerLaws threshold run active
      (run_consistency_validation threshold active).1 refl
