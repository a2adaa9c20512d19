-- ===== src/Owners.antt =====
-- memmon_owners.py.
pub mod Runaway
pub mod History
