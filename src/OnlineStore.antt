-- ===== src/OnlineStore.antt =====
-- online_store: the keys, the Redis client that the streaming job and the DAGs use, and the
-- refresh of keys that are about to expire.
pub mod KeySchema
pub mod Client
pub mod Baselines
pub mod CacheRefresh
