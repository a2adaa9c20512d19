-- ===== src/Telemetry/Gap.antt =====
-- memmon_telemetry.py, `gap_record`, and memmon.py, `notifiable_gap`: why rows are missing.
pub mod Split
use claude_memmon.Prelude.{
  ℕ, ◌+◌, ◌-◌, ◌*◌, ◌/◌, ◌%◌, ◌==◌, ◌||◌, ltb, min, String, Bool, false, Option, none, some, ◌&&◌,
  leb, not, if◌then◌else◌,
}
use claude_memmon.Telemetry.Units.{seconds}
use claude_memmon.Telemetry.Reading.{same_boot}

-- The clock fields of a history row.
pub record ClockRow : Type 0 where
  pub mono : Option ℕ
  pub uptime : ℕ
  pub boot : Option String

-- A reading that has both clocks.
pub record ClockReading : Type 0 where
  pub mono : ℕ
  pub uptime : ℕ
  pub boot : Option String

pub data Cause : Type 0 where
  reboot sleep starved : Cause

pub record Gap : Type 0 where
  pub cause : Cause
  pub gap_s : Option ℕ
  pub asleep_s : Option ℕ
  pub awake_s : Option ℕ

abbrev pub tenth : ℕ
tenth = 100000000

-- `round(x, 1)` of seconds: to the nearest tenth. Of two that are equally near, the even one; the
-- source's float may stand on either side of such an `x`.
unfoldable pub round_tenth : ℕ → ℕ
round_tenth n =
    let q = n / tenth in
    let r = n % tenth in
    if ltb (2 * r) tenth || ((2 * r == tenth) && (q % 2 == 0)) then q * tenth else (q + 1) * tenth

-- A gap of `dm` within one boot, of which `du` were spent awake.
abbrev pub split_gap : ℕ → ℕ → ℕ → Gap
split_gap threshold dm du = record {
  cause = if leb du threshold then sleep else starved;
  gap_s = some (round_tenth dm);
  asleep_s = some (round_tenth (dm - du));
  awake_s = some (round_tenth du);
}

-- The gap behind a row whose clock was read.
abbrev pub gap_after : ℕ → ℕ → Option String → ClockReading → ℕ → Option Gap
gap_after mono uptime boot cur threshold =
    if not (same_boot boot cur.boot)
    then some (record { cause = reboot; gap_s = none; asleep_s = none; awake_s = none })
    else if leb (cur.mono - mono) threshold
    then none
    else some (split_gap threshold (cur.mono - mono) (min (cur.mono - mono) (cur.uptime - uptime)))

unfoldable pub gap_record : Option ClockRow → ClockReading → ℕ → Option Gap
gap_record none cur threshold = none
gap_record (some prev) cur threshold = elim prev.mono [
  | none ↦ none
  | some mono ↦ gap_after mono prev.uptime prev.boot cur threshold
]

abbrev is_starved : Cause → Bool
is_starved starved = Bool.true
is_starved _ = false

-- `gap.get("awake_s") or 0` is at least five minutes.
abbrev awake_enough : Option ℕ → Bool
awake_enough none = false
awake_enough (some awake) = leb (seconds 300) awake

unfoldable pub notifiable_gap : Option Gap → Bool
notifiable_gap none = false
notifiable_gap (some gap) = is_starved gap.cause && awake_enough gap.awake_s
