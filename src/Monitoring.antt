-- ===== src/Monitoring.antt =====
-- monitoring/: the fetches of the dashboard, and what its pages work out before they draw.
pub mod DataFetcher
pub mod Fetches
pub mod Latency
pub mod ConsistencyPage
pub mod DriftPage
pub mod Throughput
