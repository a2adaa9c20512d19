-- ===== src/Procs.antt =====
-- memmon_procs.py: process rows, the inventory of one scan and the walks down and up its process
-- tree. The dict of a scan is the list of its rows in insertion order, keyed by the row's own pid.
pub mod Walk
pub mod Climb
