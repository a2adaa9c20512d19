-- ===== src/Runner.antt =====
-- memmon_runner.py: machine-wide admission of heavy commands and the monitoring of those that run.
pub mod Jobs
pub mod Footprint
pub mod Committed
pub mod Estimate
pub mod Decide
pub mod Admit
pub mod Queue
pub mod Mode
pub mod Monitor
pub mod Cancel
pub mod Section
