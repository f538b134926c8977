-- ===== src/Lib.antt =====
-- A model of the feature store, and what holds of it.
--
-- The program keeps feature vectors of users in Redis, serves them, compares them with an offline
-- store, watches their distributions for drift, and diagnoses what has drifted. Its parts here:
--
-- - online_store: `OnlineStore/KeySchema` (key_schema.py), `OnlineStore/Client` (redis_client.py,
--   the class SyncRedisClient), `OnlineStore/Baselines` (its baselines) and
--   `OnlineStore/CacheRefresh` (cache_refresh.py). A write queues HSET, EXPIRE and SADD on a
--   pipeline and executes it, with three attempts.
-- - api: `Api/Vector` and `Api/Features` (api/routers/features.py, api/schemas.py), `Api/Admin`
--   (api/routers/admin.py), `Api/Health` (api/routers/health.py), and `Api/App` (api/main.py,
--   api/middleware.py) around them. The handlers read what the online store wrote, and call the
--   diagnostics.
-- - validation: `Validation/Consistency` (consistency_validator.py), `Validation/Skew`
--   (skew_detector.py) and `Validation/Psi` (psi_calculator.py).
-- - drift_detection: `Drift/StatisticalTests` (statistical_tests.py), `Drift/BaselineManager`
--   (baseline_manager.py) and `Drift/Detector` (drift_detector.py), which calls the PSI of the
--   validation and the baselines in Redis.
-- - diagnostics: `Diagnostics/Schemas` (schemas.py, config.py), `Diagnostics/ContextBuilder`
--   (context_builder.py), `Diagnostics/PromptTemplates` (prompt_templates.py),
--   `Diagnostics/Rules` (the fallback of rca_engine.py) and `Diagnostics/RcaEngine` (the rest of
--   rca_engine.py).
-- - registry: `Registry/Models` (models.py), `Registry/Service` (registry_service.py, router.py and
--   api/routers/metadata.py), `Registry/Rca` (its record_rca) and `Registry/Seeding`
--   (seed_data.py).
-- - ingestion: `Ingestion/EventGenerator` and `Ingestion/Stream` (event_generator.py),
--   `Ingestion/Wire` (schemas.py) and `Ingestion/Producer` (kafka_producer.py).
-- - streaming: `Streaming/Events` and `Streaming/Features` (feature_definitions.py),
--   `Streaming/Anomaly` (anomaly_scorer.py), `Streaming/Source`, `Streaming/Processor` and
--   `Streaming/Job` (feature_processor.py: the events, the frame, and the two queries),
--   `Streaming/RedisSink` (redis_sink.py) and `Streaming/DeltaSink` (delta_sink.py). What the
--   features come to is in `Windows`, `Counts`, `Rates`, `FanOut` and `Sliding`.
-- - offline_store: `OfflineStore/Partitioning` (partitioning.py), `OfflineStore/Writer`
--   (delta_writer.py), `OfflineStore/Reader` (delta_reader.py) and `OfflineStore/Backfill`
--   (backfill.py), which computes the features of the streaming job over a batch.
-- - monitoring: `Monitoring/DataFetcher` (data_fetcher.py), and from monitoring/pages
--   `Monitoring/Latency` (02), `Monitoring/DriftPage` (03), `Monitoring/ConsistencyPage` (04) and
--   `Monitoring/Throughput` (05).
-- - airflow/dags: `Airflow/FeatureRefresh` (feature_refresh_dag.py), `Airflow/DriftMonitoring`
--   (drift_monitoring_dag.py), `Airflow/ConsistencyValidation` (consistency_validation_dag.py) and
--   `Airflow/Backfill` (backfill_dag.py), whose graphs run their tasks over the scheduler of
--   `Airflow/Dag`; airflow/plugins: `Airflow/Hooks` (feature_store_hooks.py).
--
-- A call that may raise, and that reads or changes the world, is `Exec W A`: a function from the
-- world to a result or exception and the world that it leaves (`Common/Exec`). What is not code of
-- the repository is an interface, a record that definitions take as an instance or an argument:
-- Redis (`Redis`), the clock and tenacity's retry (`Tenacity`), Python's floats (`Float`), numpy
-- and scipy (`Numpy`), frames of Spark (`Spark`), tables of Delta (`Delta`), the scheduler of
-- Airflow (`Airflow/Dag`), JSON, HTTP, the Kafka producer, the client of anthropic, the session of
-- the database. Their documented behaviour stands in records of laws, which the theorems take as
-- hypotheses; each record has a value (`Redis/Memory`, `Tenacity/Simple`, `Float/Fixed`,
-- `Numpy/Simple`, `Spark/Memory`, `Delta/Memory`, `Registry/Memory`, `Airflow/Dag/Simple`), and
-- `Examples` applies the theorems to these values.
--
-- The rows of a frame are a list, and what Spark documents of a frame is said up to the order of
-- the rows. Event times are microseconds since the epoch; the theorems on windows ask for times a
-- day or more after it, so that no window starts before it.
--
-- Every loop of the code runs over a list and is a structural recursion, so there is no fuel. The
-- endless stream of the generator is its first n batches, for every n. The retries are those of
-- the interface; three attempts is the number in the client of Redis, five that in the producer.
--
-- The two queries of the streaming job take their batches in an order that Spark's threads choose:
-- a list of batches, each with its query, and the theorems are about every such list. The requests
-- of the API are answered one after the other.
--
-- Settings are arguments. Log lines are left out. Times come from the clock of the world in which
-- they are read, and those of a loop from its reading at each turn. No key of Redis expires while
-- one call runs; between calls any may. Not modelled: the reader of the topic, the watermark and
-- the triggers of the streaming queries, which are calls of Spark alone; the statements OPTIMIZE
-- and DESCRIBE HISTORY; the drawing of the dashboard with app.py; the schedules of the graphs of
-- Airflow; the system prompt, constant text for a remote model; the routing of the API and its CORS
-- headers; the set-up of the database.
pub mod Common
pub mod Float
pub mod Redis
pub mod Tenacity
pub mod Streaming
pub mod Spark
pub mod Delta
pub mod OfflineStore
pub mod Monitoring
pub mod OnlineStore
pub mod Api
pub mod Numpy
pub mod Validation
pub mod Drift
pub mod Diagnostics
pub mod Airflow
pub mod Registry
pub mod Ingestion
pub mod Examples
