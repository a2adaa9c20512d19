-- ===== src/Act.antt =====
-- memmon_act.py: identity-checked stops of processes that memmon did not start.
pub mod Engine
pub mod Plan
pub mod Watch
pub mod Report
pub mod Force
pub mod Entry
pub mod Process
pub mod Reap
pub mod Run
