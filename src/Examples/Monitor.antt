-- ===== src/Examples/Monitor.antt =====
-- memmon_runner.py, the ticks of one wrapper on a machine that is at CRITICAL and recovers.
use claude_memmon.Prelude.{ℕ, ◌+◌, ◌≤◌, true, some, none, List, [], ◌∷◌, ◌≡◌, refl}
use claude_memmon.Telemetry.Units.{seconds}
use claude_memmon.Telemetry.Score.{Level}
use claude_memmon.Runner.Jobs.{running, intervention_needed}
use claude_memmon.Runner.Monitor.{
  clear_s, Cause, advance, level_seen, is_growth, cause_of, intervention_cause, Monitored,
  note_footprint, clear_step, intervene, TickInput, tick, auto_cancels,
}
use claude_memmon.Runner.Monitor.Streaks.{
  ticks, Leading, critical_tick, bad_tick, auto_cancels-critical, tick_pressure,
}
use claude_memmon.Runner.Monitor.Clears.{Stretch, tick_clears}

abbrev tick_at : Level → ℕ → TickInput
tick_at level at = record {
  verdict = record {
    ok = true;
    reason = none;
    level = some level;
    pressure_level = none;
    mono = some (seconds at);
    scored = none;
  };
  footprint = some 5000000;
  committed = none;
  reservation = none;
  now = seconds at;
  wall = 1700000000;
}

abbrev started : Monitored
started = record {
  state = running;
  intervention = none;
  counts = record { bad = 0; failed = 0; critical = 0; clear_since = none };
  footprint_bytes = none;
  peak = none;
}

abbrev critical_at : ℕ → TickInput
critical_at at = tick_at Level.critical at

abbrev five : List TickInput
five = critical_at 15 ∷ critical_at 12 ∷ critical_at 9 ∷ critical_at 6 ∷ critical_at 3 ∷ []

cancelled : auto_cancels true true (ticks five started) ≡ true
unfolding auto_cancels ticks tick note_footprint intervention_cause advance level_seen cause_of
    is_growth intervene clear_step
cancelled = refl

auto_cancels-critical_example : (true ≡ true) × (true ≡ true) × Leading critical_tick 5 five
auto_cancels-critical_example = auto_cancels-critical true true five started refl cancelled

abbrev one : List TickInput
one = critical_at 3 ∷ []

still_running : (ticks one started).state ≡ running
unfolding ticks tick note_footprint intervention_cause advance level_seen cause_of is_growth
    intervene clear_step
still_running = refl

unmarked : (ticks one started).intervention ≡ none
unfolding ticks tick note_footprint intervention_cause advance level_seen cause_of is_growth
    intervene clear_step
unmarked = refl

marked : (tick (critical_at 6) (ticks one started)).intervention ≡ some (Cause.pressure, 1700000000)
unfolding ticks tick note_footprint intervention_cause advance level_seen cause_of is_growth
    intervene clear_step
marked = refl

tick_pressure_example : Leading bad_tick 2 (critical_at 6 ∷ one)
tick_pressure_example =
    tick_pressure (critical_at 6) one started {since = 1700000000} refl still_running unmarked
      marked

-- Two critical ticks, and one that finds no cause.
abbrev recovering : List TickInput
recovering = tick_at Level.healthy 9 ∷ critical_at 6 ∷ critical_at 3 ∷ []

needy : (ticks recovering started).state ≡ intervention_needed
unfolding ticks tick note_footprint intervention_cause advance level_seen cause_of is_growth
    intervene clear_step
needy = refl

back : (tick (tick_at Level.healthy 40) (ticks recovering started)).state ≡ running
unfolding ticks tick note_footprint intervention_cause advance level_seen cause_of is_growth
    intervene clear_step
back = refl

tick_clears_example :
    (since : ℕ) × Stretch started since (tick_at Level.healthy 40 ∷ recovering)
    × (since + clear_s ≤ seconds 40)
    × ((tick (tick_at Level.healthy 40) (ticks recovering started)).intervention ≡ none)
tick_clears_example = tick_clears (tick_at Level.healthy 40) recovering started refl needy back
