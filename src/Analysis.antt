-- ===== src/Analysis.antt =====
-- analysis/analyze.py: the tables that are computed from a run's timeline.
pub mod Timeline
pub mod Settle
pub mod Commits
pub mod Flaps
pub mod Metrics
pub mod Signatures
pub mod Examples
