-- ===== src/Examples/Telemetry.antt =====
-- memmon_telemetry.py: an idle machine that was booted as "b1" and one that is under load.
use claude_memmon.Prelude.{
  ℕ, ◌+◌, ◌≤◌, ◌<◌, true, false, Option, some, none, List, [], ◌∷◌, ◌≡◌, refl, arith, Bool, All,
  ◌⊎◌, leb,
}
use claude_memmon.Telemetry.Units.{seconds, gap_s, recovery_s}
use claude_memmon.Telemetry.Reading.{normal, Reading, counters}
use claude_memmon.Telemetry.Rates.{Rates, rates_between}
use claude_memmon.Telemetry.Score.{score}
use claude_memmon.Telemetry.Score.Order.{Worse, severity, score_mono}
use claude_memmon.Telemetry.Gap.{ClockRow, ClockReading, Gap, starved, round_tenth, gap_record}
use claude_memmon.Telemetry.Gap.Split.{Explained, gap_record-IsSplit}
use claude_memmon.Telemetry.Cache.{
  State, fresh_state, strict_verdict, from_baselines, with_baseline, reseed_free, is_stale,
  conclude, adopt,
}
use claude_memmon.Telemetry.Cache.Verdicts.{Accepts, strict_verdict-Accepts}
use claude_memmon.Telemetry.Cache.Invariant.{IsConsistent, strict_verdict-IsConsistent}
use claude_memmon.Telemetry.Recovery.{is_late, apply_hysteresis, restarts, recovery}
use claude_memmon.Telemetry.Recovery.Window.{
  Sample, observe, Steady, recovery_quiet, recovery_opens,
}

abbrev idle : ℕ → Reading
idle mono = record {
  pressure_level = normal;
  free_pct = 60;
  ram_total = 17179869184;
  swap_total = 0;
  swap_used = 0;
  load = 2048;
  ncpu = 8;
  boot = some "b1";
  swapins = 0;
  swapouts = 0;
  page_size = 16384;
  used_bytes = 4294967296;
  mono = mono;
}

abbrev loaded : Reading
loaded = record (idle 0) { free_pct = 15; swap_used = 8589934592; load = 50000 }

abbrev no_rates : Option Rates
no_rates = none

-- A cache of this boot whose baselines were read ten seconds after the boot.
abbrev warm : State
warm = record (fresh_state (some "b1")) {
  rate_baseline = some (counters (idle (seconds 10)));
  free_baseline = some (counters (idle (seconds 10)));
}

loaded-Worse : Worse (idle 0) loaded
loaded-Worse = record {
  same_ram = refl;
  same_ncpu = refl;
  more_swap = omega arith;
  less_free = omega arith;
  more_load = omega arith;
}

score_mono_example :
    severity (score (idle 0) none none 0 none false).level
    ≤ severity (score loaded none none 0 none false).level
score_mono_example = score_mono (idle 0) loaded none none 0 none false loaded-Worse

abbrev row_before : ClockRow
row_before = record { mono = some (seconds 100); uptime = seconds 100; boot = some "b1" }

abbrev row_after : ClockReading
row_after = record { mono = 1100080000000; uptime = 900040000000; boot = some "b1" }

abbrev long_gap : Gap
long_gap = record {
  cause = starved;
  gap_s = some 1000100000000;
  asleep_s = some (seconds 200);
  awake_s = some (seconds 800);
}

gap_found : gap_record (some row_before) row_after gap_s ≡ some long_gap
unfolding gap_record round_tenth
gap_found = refl

gap_record-IsSplit_example :
    (mono : ℕ) × (some (seconds 100) ≡ some mono)
    × Explained gap_s mono (seconds 100) (some "b1") row_after long_gap
gap_record-IsSplit_example =
    gap_record-IsSplit row_before row_after gap_s {gap = long_gap} gap_found

warm_ok : (strict_verdict warm (some (idle (seconds 20))) (seconds 21) none).1.ok ≡ true
unfolding fresh_state strict_verdict from_baselines with_baseline reseed_free is_stale conclude
    adopt rates_between counters
warm_ok = refl

strict_verdict-Accepts_example :
    (r : Reading) × (some (idle (seconds 20)) ≡ some r) × Accepts warm r (seconds 21)
strict_verdict-Accepts_example =
    strict_verdict-Accepts warm (some (idle (seconds 20))) (seconds 21) none warm_ok

warm-IsConsistent : IsConsistent warm
unfolding fresh_state counters
warm-IsConsistent = record { rate_boot = refl; free_boot = refl; rates_span = tt; delta_span = tt }

strict_verdict-IsConsistent_example :
    IsConsistent (strict_verdict warm (some (idle (seconds 20))) (seconds 21) none).0
strict_verdict-IsConsistent_example =
    strict_verdict-IsConsistent warm (some (idle (seconds 20))) (seconds 21) none warm-IsConsistent

abbrev sample : Bool → ℕ → Sample
sample good t = record { good = good; mono = seconds t }

abbrev calm_samples : List Sample
calm_samples = sample true 15 ∷ sample true 18 ∷ []

-- A bad sample, good ones, and a late bad one.
abbrev mixed_samples : List Sample
mixed_samples =
    sample false 8 ∷ sample true 12 ∷ sample true 15 ∷ sample false 9 ∷ sample true 18 ∷ []

abbrev boot_state : State
boot_state = fresh_state (some "b1")

mixed_open : (recovery (observe boot_state mixed_samples) (seconds 60) recovery_s).is_open ≡ true
unfolding observe apply_hysteresis restarts recovery fresh_state
mixed_open = refl

recovery_quiet_example :
    All (λ x. (x.good ≡ true) ⊎ (x.mono + recovery_s < seconds 60)) mixed_samples
recovery_quiet_example = recovery_quiet boot_state mixed_samples (seconds 60) recovery_s mixed_open

closed_at_boot : boot_state.recovery_start_mono ≡ none
unfolding fresh_state
closed_at_boot = refl

calm-Steady : Steady (seconds 12) calm_samples
calm-Steady = (refl, omega arith, omega arith, (refl, omega arith, omega arith, tt))

nothing_bad : is_late boot_state.last_bad_mono (seconds 12) ≡ false
unfolding fresh_state
nothing_bad = refl

recovery_opens_example :
    (recovery (observe boot_state (sample true 12 ∷ calm_samples)) (seconds 50) recovery_s).is_open
    ≡ leb (recovery_s + seconds 12) (seconds 50)
recovery_opens_example =
    recovery_opens boot_state (sample true 12) calm_samples (seconds 50) recovery_s closed_at_boot
      nothing_bad refl calm-Steady
