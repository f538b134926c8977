-- ===== src/Drift.antt =====
-- drift_detection/: the statistical tests, the stored baselines, the detector.
pub mod StatisticalTests
pub mod BaselineManager
pub mod Detector
