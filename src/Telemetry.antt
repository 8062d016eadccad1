-- ===== src/Telemetry.antt =====
-- harness/telemetry.py: what a sample carries, the convergence tracker and the failure predicates.
pub mod Sample
pub mod Violation
pub mod Convergence
pub mod Predicates
pub mod Fib
pub mod Sampler
