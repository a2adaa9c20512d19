-- ===== src/Runner/Section.antt =====
-- memmon_runner.py, `Runner.tick` as a whole: its critical section, the counters behind it and the
-- automatic cancel. A ledger.lock that is not taken in time leaves everything as it is.
pub mod Shared
pub mod Waits
use claude_memmon.Prelude.{
  ℕ, String, Bool, true, false, Option, none, some, List, not, is_some, ◌||◌, if◌then◌else◌,
}
use claude_memmon.Telemetry.Reading.{Reading, same_boot}
use claude_memmon.Telemetry.Score.{Ratio}
use claude_memmon.Telemetry.Cache.{State, Verdict, note_clocks, strict_verdict}
use claude_memmon.Telemetry.Recovery.{is_good, apply_hysteresis}
use claude_memmon.Procs.Walk.{Proc}
use claude_memmon.Runner.Jobs.{Job, Child}
use claude_memmon.Runner.Footprint.{tree_footprint}
use claude_memmon.Runner.Committed.{Committed, committed_recorded}
use claude_memmon.Runner.Mode.{ModeFile, read_mode}
use claude_memmon.Runner.Decide.{
  AdmissionState, HoldReason, load_state, sample_mono, note_committed,
}
use claude_memmon.Runner.Monitor.{Monitored, tick, auto_cancels}

-- What a tick reads, in the order in which it reads it; `procs` is the scan of the job's own tree.
pub record TickSensors : Type 0 where
  pub boot : Option String
  pub mono : ℕ
  pub awake : ℕ
  pub reading : Option Reading
  pub error : Option String
  pub procs : Option (List Proc)
  pub now : ℕ
  pub rows : List Job
  pub frac : Ratio
  pub wall : ℕ
  pub mode_file : ModeFile

-- The parts of the wrapper that a tick does not change.
pub record Wrapper : Type 0 where
  pub run_id : String
  pub child : Option Child
  pub reservation : Option ℕ
  pub interruptible : Bool

-- What the section hands on.
pub record Seen : Type 0 where
  pub verdict : Verdict
  pub footprint : Option ℕ
  pub committed : Option Committed

unfoldable pub own_footprint : Wrapper → TickSensors → Option ℕ
own_footprint w io = elim io.procs [ none ↦ none | some procs ↦ tree_footprint procs w.child ]

-- By the footprints that the wrappers published, and this run's own.
unfoldable pub recorded_now : Wrapper → TickSensors → Option Committed
recorded_now w io = elim io.reading [
  | none ↦ none
  | some r ↦ some (
      committed_recorded io.rows r.used_bytes r.ram_total io.frac io.wall
        (some (record { id = w.run_id; footprint = own_footprint w io })))
]

-- A reading of another boot starts an empty state, and the hold of the old one goes with it.
abbrev kept_hold : State → Option Reading → Option (HoldReason × ℕ) → Option (HoldReason × ℕ)
kept_hold s none hold = hold
kept_hold s (some r) hold =
    if not (same_boot s.boot_id r.boot) || not (is_some r.boot) then none else hold

unfoldable pub tick_section : Wrapper → Option AdmissionState → TickSensors → AdmissionState × Seen
tick_section w stored io =
    let st = load_state stored io.boot in
    let clocked = note_clocks st.cache io.mono io.awake in
    let (s, v) = strict_verdict clocked io.reading io.now io.error in
    let c = recorded_now w io in
    (
      record {
        cache = apply_hysteresis s (is_good v) (sample_mono v io.now);
        committed = note_committed c io.wall st.committed;
        hold = kept_hold clocked io.reading st.hold;
      },
      record { verdict = v; footprint = own_footprint w io; committed = c },
    )

-- The state of the file, the run, and whether the tick goes on to `policy_cancel`.
unfoldable pub runner_tick :
    Wrapper
    → Option AdmissionState
    → Option TickSensors
    → Monitored
    → Option AdmissionState × Monitored × Bool
runner_tick w stored none r = (stored, r, false)
runner_tick w stored (some io) r =
    let (st, seen) = tick_section w stored io in
    let r' =
      tick
        (record {
          verdict = seen.verdict;
          footprint = seen.footprint;
          committed = seen.committed;
          reservation = w.reservation;
          now = io.now;
          wall = io.wall;
        })
        r in
    (some st, r', auto_cancels w.interruptible (read_mode io.mode_file).auto_cancel r')
