-- ===== src/Examples.antt =====
-- Runs of the theorems at concrete inputs, one per theorem, by the part of memmon they are about.
mod Telemetry
mod Procs
mod Runner
mod Admit
mod Cancel
mod Monitor
mod Section
mod Owners
mod Gate
mod Pressure
mod Suggest
mod Act
