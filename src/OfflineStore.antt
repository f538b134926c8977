-- ===== src/OfflineStore.antt =====
-- offline_store/: the partitions, the writes and the reads of the Delta table, and the backfill.
pub mod Partitioning
pub mod Writer
pub mod Reader
pub mod TimeTravel
pub mod Backfill
pub mod Parity
