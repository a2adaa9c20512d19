-- ===== src/Runner/Decide.antt =====
-- memmon_runner.py, `Runner.decide`: the critical section of an admission, and `load_state`. What
-- the section reads (records, process tables, clocks, the telemetry) is its argument `Sensors`.
pub mod Admits
use claude_memmon.Prelude.{
  ℕ, ◌+◌, ◌==◌, String, Bool, true, false, Option, none, some, List, ◌&&◌, ◌||◌, not, ltb, is_some,
  if◌then◌else◌,
}
use claude_memmon.Telemetry.Reading.{PressureLevel, normal, Reading, same_boot}
use claude_memmon.Telemetry.Rates.{Change}
use claude_memmon.Telemetry.Score.{Level, Ratio}
use claude_memmon.Telemetry.Cache.{State, Verdict, fresh_state, note_clocks, strict_verdict}
use claude_memmon.Telemetry.Recovery.{Recovery, is_good, apply_hysteresis, recovery}
use claude_memmon.Procs.Walk.{Proc}
use claude_memmon.Runner.Jobs.{Job}
use claude_memmon.Runner.Estimate.{Estimate}
use claude_memmon.Runner.Committed.{Committed, Scans, committed}

pub data HoldCause : Type 0 where
  telemetry pressure budget resource queue : HoldCause

-- The texts that a hold is reported with, by their kind.
pub data HoldReason : Type 0 where
  telemetry_unavailable : Option String → HoldReason
  kernel_pressure : Option PressureLevel → HoldReason
  level_hold : Option Level → HoldReason
  window_hold : Option ℕ → HoldReason
  budget_hold : ℕ → Change → HoldReason

-- admission-state.json.
pub record AdmissionState : Type 0 where
  pub cache : State
  pub committed : Option (Committed × ℕ)
  pub hold : Option (HoldReason × ℕ)

abbrev empty_state : Option String → AdmissionState
empty_state boot = record { cache = fresh_state boot; committed = none; hold = none }

-- State that does not parse or is of another boot counts as empty.
unfoldable pub load_state : Option AdmissionState → Option String → AdmissionState
load_state none boot = empty_state boot
load_state (some st) boot = if same_boot st.cache.boot_id boot then st else empty_state boot

-- What the section reads, in the order in which it reads it.
pub record Sensors : Type 0 where
  pub boot : Option String
  pub mono : ℕ
  pub awake : ℕ
  pub rows : List Job
  pub scans : Scans
  pub reading : Option Reading
  pub error : Option String
  pub now : ℕ
  pub frac : Ratio
  pub wall : ℕ

-- `verdict.get("mono") or now`
unfoldable pub sample_mono : Verdict → ℕ → ℕ
sample_mono v now = elim v.mono [ none ↦ now | some t ↦ if t == 0 then now else t ]

-- The shared cache after this section's clocks, reading and sample.
unfoldable pub sampled : State → Sensors → State × Verdict
sampled s io =
    let (s', v) = strict_verdict (note_clocks s io.mono io.awake) io.reading io.now io.error in
    (apply_hysteresis s' (is_good v) (sample_mono v io.now), v)

unfoldable pub committed_now : Sensors → String → Option Committed
committed_now io run_id = elim io.reading [
  | none ↦ none
  | some r ↦ some (
      committed io.rows r.used_bytes r.ram_total io.frac io.scans
        (not (is_some io.scans.before) || not (is_some io.scans.after)) (some run_id))
]

-- `est["bytes"] > c["free"]`, where `free` may be negative.
abbrev pub exceeds : ℕ → Change → Bool
exceeds est free = ltb 0 free.fall || ltb free.rise est

abbrev is_normal : Option PressureLevel → Bool
is_normal (some normal) = true
is_normal _ = false

pub record Decision : Type 0 where
  pub admit : Bool
  pub reason : Option HoldReason
  pub cause : Option HoldCause

abbrev holding : HoldReason → HoldCause → Decision
holding reason cause = record { admit = false; reason = some reason; cause = some cause }

-- The budget test. `c` is missing only without a reading, and then the verdict is not ok.
unfoldable pub within_budget : ℕ → Option Committed → Decision
within_budget est none = holding (telemetry_unavailable none) telemetry
within_budget est (some c) =
    if exceeds est c.free
    then holding (budget_hold est c.free) budget
    else record { admit = true; reason = none; cause = none }

-- The chain of tests.
unfoldable pub judge : Verdict → Recovery → ℕ → Option Committed → Decision
judge v rec est c =
    if not v.ok
    then holding (telemetry_unavailable v.reason) telemetry
    else if not (is_good v)
    then holding
        (if is_normal v.pressure_level
          then level_hold v.level
          else kernel_pressure v.pressure_level)
        pressure
    else if not rec.is_open
    then holding (window_hold rec.remaining_s) pressure
    else within_budget est c

abbrev hold_of : Decision → ℕ → Option (HoldReason × ℕ)
hold_of d now = elim d.reason [ none ↦ none | some reason ↦ some (reason, now) ]

-- `state["committed"]` is replaced only where there was a reading.
abbrev pub note_committed : Option Committed → ℕ → Option (Committed × ℕ) → Option (Committed × ℕ)
note_committed none wall old = old
note_committed (some c) wall old = some (c, wall)

-- The section's result: the decision, what is committed, and the state that it writes.
unfoldable pub decide :
    Option AdmissionState
    → Sensors
    → String
    → ℕ
    → Estimate
    → Decision × Option Committed × AdmissionState
decide stored io run_id hysteresis_s est =
    let st = load_state stored io.boot in
    let (cache, v) = sampled st.cache io in
    let c = committed_now io run_id in
    let d = judge v (recovery cache io.now hysteresis_s) est.bytes c in
    (
      d,
      c,
      record {
        cache = cache;
        committed = note_committed c io.wall st.committed;
        hold = hold_of d io.now;
      },
    )
