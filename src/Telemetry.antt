-- ===== src/Telemetry.antt =====
-- memmon_telemetry.py: the strict memory readings and what is derived from them.
pub mod Units
pub mod Reading
pub mod Rates
pub mod Score
pub mod Gap
pub mod Cache
pub mod Recovery
