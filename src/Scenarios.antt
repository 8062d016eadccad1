-- ===== src/Scenarios.antt =====
-- harness/scenarios.py: the events that a run draws, as programs over the calls that they make.
pub mod Calls
pub mod Context
pub mod Flap
pub mod Blackhole
pub mod Policy
pub mod Netem
pub mod Churn
pub mod Brackets
pub mod Impairment
pub mod Scheduler
pub mod Examples
pub mod Probing
pub mod Malformed
