-- ===== src/Runner/Monitor/Streaks.antt =====
-- The tick counters are streaks, and what starts an intervention.
use claude_memmon.Prelude.{
  ℕ, zero, suc, ◌+◌, ◌≤◌, Bool, true, false, none, some, List, [], ◌∷◌, ◌≡◌, arith, ◌⊎◌, inl, inr,
}
use claude_memmon.Runner.Jobs.{running}
use claude_memmon.Runner.Monitor.{
  Cause, level_seen, is_bad, is_critical, advance, cause_of, intervention_cause, Monitored,
  note_footprint, clear_step, intervene, TickInput, tick, auto_cancels,
}

-- The ticks of a wrapper, the newest first. One that does not get the lock in time leaves the run as
-- it is, as `runner_tick` has it, and does not stand in the list.
unfoldable pub ticks : List TickInput → Monitored → Monitored
ticks [] r = r
ticks (io ∷ ios) r = tick io (ticks ios r)

-- The newest `n` ticks all passed the test.
abbrev pub Leading : (TickInput → Bool) → ℕ → List TickInput → Type 0
Leading p zero ios = Unit
Leading p (suc n) [] = ⊥
Leading p (suc n) (io ∷ ios) = (p io ≡ true) × Leading p n ios

-- An accepted verdict at CRITICAL.
abbrev pub critical_tick : TickInput → Bool
critical_tick io = is_critical (level_seen io.verdict)

-- An accepted verdict at DANGER or CRITICAL.
abbrev pub bad_tick : TickInput → Bool
bad_tick io = is_bad (level_seen io.verdict)

tick-critical :
    (io : TickInput) (r : Monitored)
    → (critical_tick io ≡ true) × ((tick io r).counts.critical ≡ r.counts.critical + 1)
      ⊎ (critical_tick io ≡ false) × ((tick io r).counts.critical ≡ 0)
unfolding tick intervene clear_step note_footprint intervention_cause advance
tick-critical io r = ground arith

tick-bad :
    (io : TickInput) (r : Monitored)
    → (bad_tick io ≡ true) × ((tick io r).counts.bad ≡ r.counts.bad + 1)
      ⊎ (bad_tick io ≡ false) × ((tick io r).counts.bad ≡ 0)
unfolding tick intervene clear_step note_footprint intervention_cause advance
tick-bad io r = ground arith

-- A counter that a test raises by one and resets otherwise counts the newest run of that test.
streak :
    (p : TickInput → Bool) (count : Monitored → ℕ) (r : Monitored)
    → ((io : TickInput) (s : Monitored)
        → (p io ≡ true) × (count (tick io s) ≡ count s + 1)
          ⊎ (p io ≡ false) × (count (tick io s) ≡ 0))
    → count r ≡ 0
    → (n : ℕ) (ios : List TickInput) → n ≤ count (ticks ios r)
    → Leading p n ios
unfolding ticks
streak p count r step start zero ios h = tt
streak p count r step start (suc n) [] h = absurd (omega arith)
streak p count r step start (suc n) (io ∷ ios) h = elim (step io (ticks ios r)) [
  | inl (yes', more) ↦ (yes', streak p count r step start n ios (omega arith))
  | inr (no', none') ↦ absurd (omega arith)
]

-- A running job is only ever cancelled automatically when it was started as interruptible, the
-- setting is on, and each of the five newest ticks that got the lock had an accepted
-- verdict at CRITICAL.
pub auto_cancels-critical :
    (interruptible setting : Bool) (ios : List TickInput) (r : Monitored)
    → r.counts.critical ≡ 0
    → auto_cancels interruptible setting (ticks ios r) ≡ true
    → (interruptible ≡ true) × (setting ≡ true) × Leading critical_tick 5 ios
unfolding auto_cancels
auto_cancels-critical interruptible setting ios r start h = (
  ground arith,
  ground arith,
  streak critical_tick (λ s. s.counts.critical) r tick-critical start 5 ios (ground arith),
)

marked-bad :
    (io : TickInput) (r : Monitored) {since : ℕ}
    → r.state ≡ running
    → (tick io r).intervention ≡ some (Cause.pressure, since)
    → r.intervention ≡ none
    → 2 ≤ (tick io r).counts.bad
unfolding tick intervene clear_step note_footprint intervention_cause advance cause_of
marked-bad io r before marked fresh = ground arith

-- A running job is marked as needing attention for the pressure only after two ticks in a row that
-- got the lock, with
-- an accepted verdict at DANGER or CRITICAL.
pub tick_pressure :
    (io : TickInput) (ios : List TickInput) (r : Monitored) {since : ℕ}
    → r.counts.bad ≡ 0
    → (ticks ios r).state ≡ running
    → (ticks ios r).intervention ≡ none
    → (tick io (ticks ios r)).intervention ≡ some (Cause.pressure, since)
    → Leading bad_tick 2 (io ∷ ios)
tick_pressure io ios r start before fresh marked =
    streak bad_tick (λ s. s.counts.bad) r tick-bad start 2 (io ∷ ios)
      (unfold ticks in marked-bad io (ticks ios r) before marked fresh)
