-- ===== src/Runner/Admit.antt =====
-- memmon_runner.py, `admit_protect` and `timed_out`: the loop of a run that waits to be admitted.
-- Each pass reads the world anew, so a pass is a value: what it finds of the signals, the clock, the
-- ledger's lock, the queue, the locks and the sensors. The texts and the log are left out.
pub mod Turns
use claude_memmon.Prelude.{
  ℕ, ◌+◌, String, Bool, true, false, Option, none, some, List, [], ◌∷◌, ◌&&◌, ◌||◌, not, leb,
  str_eq, if◌then◌else◌, get_or,
}
use claude_memmon.Runner.Estimate.{Estimate}
use claude_memmon.Runner.Queue.{Ticket, Queue, candidate, take_ticket, drop_ticket}
use claude_memmon.Runner.Decide.{
  HoldCause, telemetry, resource, queue, AdmissionState, Sensors, decide,
}

-- How `ledger` is entered: it is locked, a signal came, or its deadline passed.
pub data Entered : Type 0 where
  opened too_late : Entered
  interrupted : ℕ → Entered

-- What a pass of the loop finds. `free` is the test of `candidate`, `locked` the run's own attempt
-- to lock its resource, and `resource_free` the test of `_resource_free`.
pub record Pass : Type 0 where
  pub cancelled : Option ℕ
  pub mono : ℕ
  pub ledger : Entered
  pub queue : Queue
  pub free : String → Bool
  pub locked : Bool
  pub resource_free : Bool
  pub estimate : Estimate
  pub stored : Option AdmissionState
  pub sensors : Sensors

-- The answer of `admit_protect` is none where the run is admitted, else an exit code. An admission
-- leaves the shared files as `files`.
pub record Files : Type 0 where
  pub queue : Queue
  pub state : AdmissionState

pub data Step : Type 0 where
  admitted : Files → Step
  gave_up : ℕ → Step
  waits : Option HoldCause → Step

abbrev is_telemetry : Option HoldCause → Bool
is_telemetry (some telemetry) = true
is_telemetry _ = false

-- `125 if self.hold_cause == "telemetry" else 124`
unfoldable pub timeout_code : Option HoldCause → ℕ
timeout_code cause = if is_telemetry cause then 125 else 124

abbrev pub is_turn : Option (ℕ × String) → String → Bool
is_turn none run_id = false
is_turn (some c) run_id = str_eq c.1 run_id

abbrev pub no_turn : Option (ℕ × String) → Bool
no_turn none = true
no_turn (some c) = false

-- The decision of a run whose turn it is and that holds its resource.
unfoldable pub decided : String → ℕ → Option HoldCause → Pass → Step
decided run_id hysteresis_s cause p =
    let (d, c, state) = decide p.stored p.sensors run_id hysteresis_s p.estimate in
    if d.admit
    then admitted (record { queue = drop_ticket run_id p.queue; state = state })
    else waits (elim d.cause [ none ↦ cause | some new ↦ some new ])

-- The section under the ledger's lock.
unfoldable pub section : (String → String → Bool) → String → ℕ → Option HoldCause → Pass → Step
section le run_id hysteresis_s cause p =
    let (turn, live) = candidate le p.free p.queue in
    if is_turn turn run_id && p.locked
    then decided run_id hysteresis_s cause p
    else if no_turn turn || (is_turn turn run_id || not p.resource_free)
    then waits (some resource)
    else waits (some queue)

-- One pass of the loop.
unfoldable pub pass :
    (String → String → Bool) → String → ℕ → ℕ → Bool → Option HoldCause → Pass → Step
pass le run_id hysteresis_s deadline attempted cause p = elim p.cancelled [
  | some sig ↦ gave_up (128 + sig)
  | none ↦
      if attempted && leb deadline p.mono then gave_up (timeout_code cause) else elim p.ledger [
        | opened ↦ section le run_id hysteresis_s cause p
        | too_late ↦ gave_up (timeout_code cause)
        | interrupted sig ↦ gave_up (128 + sig)
      ]
]

-- How a run's waiting ends; `waiting` where the passes are used up.
pub data Ended : Type 0 where
  started : Files → Ended
  exits : ℕ → Ended
  waiting : Option HoldCause → Ended

-- The loop. `attempted` is false only at the first pass.
unfoldable pub loop :
    (String → String → Bool) → String → ℕ → ℕ → Bool → Option HoldCause → List Pass → Ended
loop le run_id hysteresis_s deadline attempted cause [] = waiting cause
loop le run_id hysteresis_s deadline attempted cause (p ∷ ps) =
    elim (pass le run_id hysteresis_s deadline attempted cause p) [
      | admitted files ↦ started files
      | gave_up code ↦ exits code
      | waits cause' ↦ loop le run_id hysteresis_s deadline true cause' ps
    ]

-- The first section, which takes a ticket, and the loop.
unfoldable pub admit_protect :
    (String → String → Bool) → String → String → ℕ → ℕ → Entered → Queue → List Pass → Ended
admit_protect le run_id res hysteresis_s deadline too_late q ps = exits 124
admit_protect le run_id res hysteresis_s deadline (interrupted sig) q ps = exits (128 + sig)
admit_protect le run_id res hysteresis_s deadline opened q ps =
    if (take_ticket run_id res q).1
    then loop le run_id hysteresis_s deadline false none ps
    else exits 124
