-- ===== src/Lib.antt =====
-- memmon, a memory monitor for macOS that admits, watches and reports on heavy jobs: its telemetry,
-- its runner, its process trees and its notifications of memory pressure, as executable definitions.
--
-- The parts and the files that model them:
-- - Telemetry (memmon_telemetry.py). Reading: the checks of `_instant`. Rates: `rates_between`,
--   `free_delta_between`. Score: `score`, the verdict on one reading. Gap: `gap_record`, and
--   `notifiable_gap` of memmon.py. Cache: the shared state of `fresh_state`, `note_clocks` and
--   `strict_verdict`. Recovery: `is_good`, `apply_hysteresis`, `recovery`.
-- - Procs (memmon_procs.py). Walk: `Inventory.children` and `Inventory.descendants`. Climb: the walks
--   over parents of memmon_act.py and memmon_pressure.py, `_ancestors`, `_has_ancestor_in`, `_depth`,
--   `_self_and_ancestors`, `heavy_roots`.
-- - Runner (memmon_runner.py). Jobs: `_child_of`, `reservation_of`. Footprint: `_kids`,
--   `_tree_footprint`. Committed: `committed`, `committed_recorded`. Estimate: `estimate_for`,
--   `record_peak`, `touch_peaks`. Queue: `tickets`, `_prune_tickets`, `take_ticket`, `drop_ticket`,
--   `candidate`. Decide: `load_state` and `Runner.decide`. Admit: `admit_protect`. Monitor:
--   `intervention_cause` and `Runner.tick` behind its critical section. Section: the whole of
--   `Runner.tick`, and the critical sections of all runners in any order. Cancel: `policy_cancel`.
--   Mode: `read_mode`, `write_mode`, `headroom_frac`.
-- - Pressure (memmon_pressure.py). Episode: `under_pressure`, `episode_step`, `run_episode`,
--   `rollback_notification`. Series: `series_stats`. History: `update_job_history`. Suggest and
--   Suggest/Rows: `heavy_pids`, `_managed`, `_nearest_root`, `suggestions`.
-- - Act (memmon_act.py). Engine: `_same`, `_signal`, `_alive`, `_self_tree`, `_lease_rows`, `_holds`.
--   Plan: `_plan`. Watch: the signals and the rounds of `_graceful`, with `discover` and `release`.
--   Report: the end of `_graceful`. Force: `_force`, `_unlisted`. Entry: the tests of `_process`, and
--   `_target_gone`. Process: `_process`. Reap: `reap`, `_reap_once`. Run: `run`.
-- - Owners (memmon_owners.py). History: `update_history`. Runaway: its samples of one owner,
--   `runaway_streak`, `update_runaways`.
-- - Gate (memmon.py). `top_suggestion` and `gate_decision`.
-- - Prelude: the names of the library that all parts use, Boolean tests and lists over the native ℕ.
-- - Examples: runs of the theorems at concrete inputs.
--
-- How they interact: an admission (`decide`) reads the clocks, the records of all runs, the process
-- table, the telemetry and the process table again, under ledger.lock. The reading goes through the
-- shared cache (Cache), whose verdict (Score) moves the shared hysteresis (Recovery). The trees of the
-- admitted jobs (Footprint) and their reservations give what is committed, against which the job's
-- estimate (Estimate) is judged. A ticket's turn (Queue) comes before a decision; the ticks of a
-- running job (Monitor) follow it. The sampler's runs drive the episode (Pressure) and the runaway
-- episodes of the owners (Owners), and its suggestions read the history of the heavy jobs (History).
-- The gate answers by the latest verdict and the sampler's row (Gate). A stop (Act) reads the table
-- again before each signal; what it could not end goes into a token, which a force takes up. The
-- automatic cancel of a run (Cancel) is such a stop and such a force.
--
-- Conventions. Stateful functions pass their state; files are the value that was parsed from them,
-- `none` where they cannot be read. A critical section's readings are its argument, in the order in
-- which the section takes them. Clock values are whole nanoseconds and every rate, headroom or
-- fraction is an exact quotient, so the comparisons of floats are comparisons of products here. The
-- durations of a gap are rounded to tenths of a second (a tie of the exact value goes to the even
-- tenth), and the learned estimate is the float product of the greatest peak and 1.15; the rounding of
-- other numbers that are only shown is left out. The load counts 1/2048. Signed differences are a rise
-- and a fall. Texts that only inform are left out or given by their kind.
--
-- What an action reads of the machine is one `World`: the process table, the leases, the clock and
-- whether a kill works may differ at every reading, and the engine's `time` counts the readings. So the
-- theorems about actions hold for whatever other processes do between two readings.
--
-- Fuel: the walks over a process tree have one round for each process and two more. Every process is
-- pushed at most once, by its only parent (Footprint) or because it was not seen (Walk), so the stack
-- is empty when they end; Procs.Walk.Bound and Runner.Footprint.Bound hold the counts. The walks over
-- parents have one round for each process and one more. The rounds of a stop and of a force have one
-- for each nanosecond of their grace and one more, which is enough where the clock advances between
-- readings; the walk to memmon's own ancestors has one for each pid that the system can give.
--
-- Not modelled: system calls, the file system, signals and subprocesses, the loop around the ticks
-- (`launch_and_monitor`), the attribution of processes to owners (memmon_owners.py), the checks of an
-- app before it quits, the watch for a restarted worker and the lock file (memmon_act.py), the
-- classification of commands, the sampler and the command line (memmon.py), explanations, routes and
-- updates, and the Swift menu bar application. The order of run ids and whether a resource's lock is
-- free are parameters of the queue; the search for a build in a tag is one of the gate.
pub mod Prelude
pub mod Telemetry
pub mod Procs
pub mod Runner
pub mod Pressure
pub mod Owners
pub mod Gate
pub mod Act
pub mod Examples
