-- ===== src/Telemetry/Recovery.antt =====
-- memmon_telemetry.py, the shared hysteresis: `is_good`, `apply_hysteresis` and `recovery`.
pub mod Window
use claude_memmon.Prelude.{
  ℕ, ◌+◌, ◌-◌, max, Bool, true, false, Option, none, some, ◌&&◌, leb, ltb, if◌then◌else◌,
}
use claude_memmon.Telemetry.Units.{good_gap_s}
use claude_memmon.Telemetry.Reading.{PressureLevel, normal}
use claude_memmon.Telemetry.Score.{Level, healthy, watch}
use claude_memmon.Telemetry.Cache.{State, Verdict}

abbrev mild : Option Level → Bool
mild (some healthy) = true
mild (some watch) = true
mild _ = false

abbrev is_normal : Option PressureLevel → Bool
is_normal (some normal) = true
is_normal _ = false

unfoldable pub is_good : Verdict → Bool
is_good v = v.ok && mild v.level && is_normal v.pressure_level

-- `max(last, t)`, or `t` where there is no last value.
abbrev pub latest : Option ℕ → ℕ → ℕ
latest none t = t
latest (some last) t = max last t

-- The previous good reading is missing or more than GOOD_GAP_S older.
unfoldable pub restarts : Option ℕ → Option ℕ → ℕ → Bool
restarts none prev_good sample_mono = true
restarts (some start) none sample_mono = true
restarts (some start) (some prev) sample_mono = ltb good_gap_s (sample_mono - prev)

-- `last_bad is not None and sample_mono <= last_bad`
abbrev pub is_late : Option ℕ → ℕ → Bool
is_late none sample_mono = false
is_late (some last_bad) sample_mono = leb sample_mono last_bad

unfoldable pub apply_hysteresis : State → Bool → ℕ → State
apply_hysteresis s good sample_mono =
    if good
    then if is_late s.last_bad_mono sample_mono then s else record s {
      recovery_start_mono =
          if restarts s.recovery_start_mono s.last_good_mono sample_mono
          then some sample_mono
          else s.recovery_start_mono;
      last_good_mono = some (latest s.last_good_mono sample_mono);
    }
    else record s {
      last_bad_mono = some (latest s.last_bad_mono sample_mono);
      recovery_start_mono = none;
    }

-- The window of `recovery`. The source rounds `remaining_s` to tenths of a second.
pub record Recovery : Type 0 where
  pub is_open : Bool
  pub remaining_s : Option ℕ

-- `bad is not None and bad >= start`
abbrev closed_by : Option ℕ → ℕ → Bool
closed_by none start = false
closed_by (some bad) start = leb start bad

unfoldable pub recovery : State → ℕ → ℕ → Recovery
recovery s now_mono window_s = elim s.recovery_start_mono [
  | none ↦ record { is_open = false; remaining_s = none }
  | some start ↦
      if closed_by s.last_bad_mono start
      then record { is_open = false; remaining_s = none }
      else record {
        is_open = leb (window_s + start) now_mono;
        remaining_s = some (window_s + start - now_mono);
      }
]
