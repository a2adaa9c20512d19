-- ===== src/Examples/Section.antt =====
-- memmon_runner.py, three critical sections in a row: the telemetry fails, recovers, and a job is
-- admitted, with a window of three seconds.
use claude_memmon.Prelude.{ℕ, ◌+◌, ◌≤◌, true, false, Option, some, none, ◌≡◌, refl, arith}
use claude_memmon.Telemetry.Units.{seconds}
use claude_memmon.Telemetry.Reading.{Reading, counters}
use claude_memmon.Telemetry.Rates.{rates_between}
use claude_memmon.Telemetry.Score.{
  score, total_points, level_of, swap_points, thrash_points, free_points, growth_points,
  load_points, headroom, streak_after,
}
use claude_memmon.Telemetry.Cache.{
  fresh_state, note_clocks, woke, strict_verdict, from_baselines, with_baseline, reseed_free,
  is_stale, conclude, adopt, free_trend,
}
use claude_memmon.Telemetry.Recovery.{is_good, apply_hysteresis, restarts, recovery}
use claude_memmon.Runner.Jobs.{child_of, reservation_of}
use claude_memmon.Runner.Committed.{committed, slack_of, measured, limit_of}
use claude_memmon.Runner.Footprint.{tree_footprint}
use claude_memmon.Runner.Decide.{
  AdmissionState, Sensors, load_state, sample_mono, sampled, committed_now, judge, within_budget,
  decide,
}
use claude_memmon.Runner.Section.Shared.{
  Reachable, start, next, admission, StoredConsistent, Reachable-StoredConsistent,
}
use claude_memmon.Runner.Section.Waits.{Waiting, bad_admission, Waiting-admit}
use claude_memmon.Examples.Runner.{idle, stored, sensors, wanted}

abbrev at : Option Reading → ℕ → Sensors
at reading t = record sensors {
  mono = seconds t;
  awake = seconds t;
  reading = reading;
  now = seconds t;
}

abbrev failing : Sensors
failing = at none 101

abbrev good : ℕ → Sensors
good t = at (some (idle (seconds t))) t

abbrev second_file : Option AdmissionState
second_file = some (decide (some stored) failing "r2" (seconds 3) wanted).2

abbrev third_file : Option AdmissionState
third_file = some (decide second_file (good 110) "r2" (seconds 3) wanted).2

failed_verdict : is_good (sampled (load_state (some stored) failing.boot).cache failing).1 ≡ false
unfolding load_state sampled note_clocks woke strict_verdict fresh_state is_good
failed_verdict = refl

waited : Waiting (seconds 101) third_file
waited =
    Waiting.admission second_file
      (bad_admission (some stored) failing "r2" (seconds 3) wanted failed_verdict) (good 110) "r2"
      (seconds 3) wanted (omega arith) (omega arith)

then_admitted : (decide third_file (good 113) "r2" (seconds 3) wanted).0.admit ≡ true
unfolding decide load_state sampled note_clocks woke strict_verdict from_baselines with_baseline
    reseed_free is_stale conclude adopt free_trend rates_between counters fresh_state score
    total_points level_of swap_points thrash_points free_points growth_points load_points headroom
    streak_after is_good apply_hysteresis restarts recovery sample_mono committed_now committed
    slack_of measured limit_of reservation_of child_of tree_footprint judge within_budget
then_admitted = refl

Waiting-admit_example : seconds 101 + seconds 3 ≤ seconds 113
Waiting-admit_example =
    Waiting-admit {t = seconds 101} {stored = third_file} waited (good 113) "r2" (seconds 3) wanted
      (omega arith) (omega arith) then_admitted

seen_failing : Reachable (some (decide none failing "r2" (seconds 3) wanted).2)
seen_failing = next start (admission failing "r2" (seconds 3) wanted)

abbrev later_file : Option AdmissionState
later_file =
    some
      (decide (some (decide none failing "r2" (seconds 3) wanted).2) (good 110) "r2" (seconds 3)
        wanted).2

seen_again : Reachable later_file
seen_again = next seen_failing (admission (good 110) "r2" (seconds 3) wanted)

Reachable-StoredConsistent_example : StoredConsistent later_file
Reachable-StoredConsistent_example = Reachable-StoredConsistent {stored = later_file} seen_again
