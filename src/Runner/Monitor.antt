-- ===== src/Runner/Monitor.antt =====
-- memmon_runner.py, `intervention_cause` and the part of `Runner.tick` behind its critical section:
-- the tick counters of one wrapper, the intervention state and the automatic cancel.
pub mod Clears
pub mod Streaks
use claude_memmon.Prelude.{
  ℕ, ◌+◌, ◌-◌, ◌*◌, max, Bool, true, false, Option, none, some, ◌&&◌, ◌||◌, leb, ltb, ◌==◌, get_or,
  if◌then◌else◌,
}
use claude_memmon.Telemetry.Units.{seconds}
use claude_memmon.Telemetry.Score.{Level, danger, critical}
use claude_memmon.Telemetry.Cache.{Verdict}
use claude_memmon.Runner.Jobs.{RunState, running, intervention_needed}
use claude_memmon.Runner.Committed.{Committed}

abbrev pub pressure_ticks : ℕ
pressure_ticks = 2

abbrev pub failed_ticks : ℕ
failed_ticks = 3

abbrev pub auto_cancel_ticks : ℕ
auto_cancel_ticks = 5

abbrev pub clear_s : ℕ
clear_s = seconds 30

-- `self.monitor`
pub record Counts : Type 0 where
  pub bad : ℕ
  pub failed : ℕ
  pub critical : ℕ
  pub clear_since : Option ℕ

pub data Cause : Type 0 where
  pressure growth telemetry : Cause

-- `verdict.get("level") if verdict.get("ok") else None`
unfoldable pub level_seen : Verdict → Option Level
level_seen v = if v.ok then v.level else none

abbrev is_bad : Option Level → Bool
is_bad (some danger) = true
is_bad (some critical) = true
is_bad _ = false

abbrev is_critical : Option Level → Bool
is_critical (some critical) = true
is_critical _ = false

-- The counters after one verdict.
unfoldable pub advance : Counts → Verdict → Counts
advance m v = record m {
  failed = if v.ok then 0 else m.failed + 1;
  bad = if is_bad (level_seen v) then m.bad + 1 else 0;
  critical = if is_critical (level_seen v) then m.critical + 1 else 0;
}

-- The footprint is above 1.5 times the reservation while committed memory is over the limit.
unfoldable pub is_growth : Option ℕ → Option Committed → Option ℕ → Bool
is_growth none c reservation = false
is_growth (some fp) none reservation = false
is_growth (some fp) (some c) reservation = c.over && ltb (3 * get_or reservation 0) (2 * fp)

-- The cause, by the counters that were just advanced.
unfoldable pub cause_of : Counts → Option ℕ → Option Committed → Option ℕ → Option Cause
cause_of m fp c reservation =
    if leb pressure_ticks m.bad
    then some pressure
    else if is_growth fp c reservation
    then some growth
    else if leb failed_ticks m.failed
    then some telemetry
    else none

unfoldable pub intervention_cause :
    Counts → Verdict → Option ℕ → Option Committed → Option ℕ → Counts × Option Cause
intervention_cause m v fp c reservation = let m' = advance m v in (m', cause_of m' fp c reservation)

-- The parts of the run that a tick moves.
pub record Monitored : Type 0 where
  pub state : RunState
  pub intervention : Option (Cause × ℕ)
  pub counts : Counts
  pub footprint_bytes : Option ℕ
  pub peak : Option ℕ

abbrev is_running : RunState → Bool
is_running running = true
is_running _ = false

abbrev needs_attention : RunState → Bool
needs_attention intervention_needed = true
needs_attention _ = false

-- A footprint that was read is recorded, and raises the peak.
unfoldable pub note_footprint : Option ℕ → Monitored → Monitored
note_footprint none r = r
note_footprint (some fp) r = record r {
  footprint_bytes = some fp;
  peak = some (max (get_or r.peak 0) fp);
}

-- `m["clear_since"] or now`
abbrev pub clear_from : Option ℕ → ℕ → ℕ
clear_from none now = now
clear_from (some t) now = if t == 0 then now else t

-- The run without a cause in this tick, while it needs attention.
unfoldable pub clear_step : ℕ → Monitored → Monitored
clear_step now r =
    let since = clear_from r.counts.clear_since now in
    let r' = record r { counts = record (r.counts) { clear_since = some since } } in
    if leb clear_s (now - since) then record r' { state = running; intervention = none } else r'

-- The three branches on the cause and the state.
unfoldable pub intervene : ℕ → ℕ → Option Cause → Monitored → Monitored
intervene now wall (some cause) r =
    let cleared = record (r.counts) { clear_since = none } in
    if is_running r.state
    then record r {
      state = intervention_needed;
      intervention = some (cause, wall);
      counts = cleared;
    }
    else if needs_attention r.state
    then record r { counts = cleared }
    else r
intervene now wall none r = if needs_attention r.state then clear_step now r else r

pub record TickInput : Type 0 where
  pub verdict : Verdict
  pub footprint : Option ℕ
  pub committed : Option Committed
  pub reservation : Option ℕ
  pub now : ℕ
  pub wall : ℕ

unfoldable pub tick : TickInput → Monitored → Monitored
tick io r =
    let r' = note_footprint io.footprint r in
    let (m, cause) =
      intervention_cause r'.counts io.verdict io.footprint io.committed io.reservation in
    intervene io.now io.wall cause (record r' { counts = m })

-- Whether the tick goes on to `policy_cancel`.
unfoldable pub auto_cancels : Bool → Bool → Monitored → Bool
auto_cancels interruptible setting r =
    interruptible && (leb auto_cancel_ticks r.counts.critical && setting)
