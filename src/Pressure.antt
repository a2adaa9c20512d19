-- ===== src/Pressure.antt =====
-- memmon_pressure.py: heavy work that memmon did not start, under memory pressure.
pub mod Episode
pub mod Series
pub mod History
pub mod Suggest
