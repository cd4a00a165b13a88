-- ===== src/Activate.antt =====
-- pkg/activate/activator.go: the activator, which brings pods back into traffic, pauses them or kills
-- them.
pub mod Strategy
pub mod Round
pub mod Decisions
pub mod Panics
pub mod RunLaws
