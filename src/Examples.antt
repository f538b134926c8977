-- ===== src/Examples.antt =====
-- The theorems at concrete inputs: a server in memory, numbers with six decimals.
mod Answers
mod World
mod OnlineStore
mod Validation
mod Drift
mod Diagnostics
mod Serving
mod Consistency
mod Ingestion
mod Streaming
mod Offline
mod Job
mod Wire
mod App
mod Dags
mod Generator
mod Monitoring
