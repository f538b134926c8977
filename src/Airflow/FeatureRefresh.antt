-- ===== src/Airflow/FeatureRefresh.antt =====
-- airflow/dags/feature_refresh_dag.py
pub mod Laws
use feature_store.Common.{ℕ, String, Bool, List, [], ◌∷◌, length, is_empty, if◌then◌else◌}
use feature_store.Common.Exec.{Exec, Result, ok, err, pure, ◌>>=◌, ◌>>◌}
use feature_store.Redis.{Redis, Command, expire}
use feature_store.OnlineStore.KeySchema.{feature_key, user_index_key}
use feature_store.OnlineStore.CacheRefresh.{is_stale}

module _ {W : Type 0} ⦃r : Redis W⦄ where
  -- the loop: the commands that the pipeline queues
  unfoldable pub refresh_commands : List String → Exec W (List Command)
  refresh_commands [] = pure []
  refresh_commands (uid ∷ user_ids) = do
    ttl ← r.ttl (feature_key uid)
    cs ← refresh_commands user_ids
    pure (if is_stale 60 ttl then expire (feature_key uid) 300 ∷ cs else cs)

  -- the `refreshed_count` that the task pushes
  unfoldable pub find_and_refresh_stale : Exec W ℕ
  find_and_refresh_stale = do
    user_ids ← r.srandmember user_index_key 1000
    cs ← refresh_commands user_ids
    if is_empty cs then pure 0 else (r.execute cs >> pure (length cs))
