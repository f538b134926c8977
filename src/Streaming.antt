-- ===== src/Streaming.antt =====
-- streaming/: the transforms of the features and of the anomaly score over data frames of events,
-- the two frames joined, and the two sinks that a batch goes to.
pub mod Events
pub mod Source
pub mod Features
pub mod Anomaly
pub mod Processor
pub mod Job
pub mod Windows
pub mod Counts
pub mod Rates
pub mod FanOut
pub mod Sliding
pub mod RedisSink
pub mod DeltaSink
