-- ===== src/Breaker.antt =====
-- pkg/breaker/breaker.go: the round of a breaker, which cuts the pods that its analysis reports while
-- enough pods stay in traffic.
pub mod Count
pub mod Round
pub mod RoundLaws
pub mod TickerLaws
pub mod MinimumLaws
