-- ===== src/Election.antt =====
-- pkg/leaderelection/leaderelection.go: which controller leads. `Lock` is the lock of the Kubernetes
-- libraries over a state of its own; the clock is a parameter, and a time is a count of nanoseconds.
pub mod Attempt
pub mod AttemptLaws
pub mod Loops
pub mod LoopLaws
