-- ===== src/Detector.antt =====
-- pkg/anomalydetector: the analyses that report pods out of bounds, and their factory.
pub mod Samples
pub mod Index
pub mod Discrete
pub mod DiscreteLaws
pub mod Continuous
pub mod Factory
pub mod Custom
