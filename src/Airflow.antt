-- ===== src/Airflow.antt =====
-- airflow/dags: the tasks of the scheduled graphs.
pub mod Dag
pub mod FeatureRefresh
pub mod DriftMonitoring
pub mod ConsistencyValidation
pub mod Backfill
pub mod Hooks
