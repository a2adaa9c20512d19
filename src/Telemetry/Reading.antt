-- ===== src/Telemetry/Reading.antt =====
-- memmon_telemetry.py, `_instant` and the fields of a strict reading.
use claude_memmon.Prelude.{
  ℕ, String, Bool, true, false, Option, none, some, ltb, ◌==◌, if◌then◌else◌, str_eq,
}

-- The values of `PRESSURE_LEVELS`.
pub data PressureLevel : Type 0 where
  normal warning critical : PressureLevel

-- A boot id may be unreadable (`None`); two unreadable ids compare equal.
abbrev pub same_boot : Option String → Option String → Bool
same_boot none none = true
same_boot none (some b) = false
same_boot (some a) none = false
same_boot (some a) (some b) = str_eq a b

-- One strict reading. `load` counts 1/2048 of a runnable process, the kernel's own fixed point.
pub record Reading : Type 0 where
  pub pressure_level : PressureLevel
  pub free_pct : ℕ
  pub ram_total : ℕ
  pub swap_total : ℕ
  pub swap_used : ℕ
  pub load : ℕ
  pub ncpu : ℕ
  pub boot : Option String
  pub swapins : ℕ
  pub swapouts : ℕ
  pub page_size : ℕ
  pub used_bytes : ℕ
  pub mono : ℕ

-- `_counters`: what is kept of a reading as a baseline.
pub record Counters : Type 0 where
  pub mono : ℕ
  pub boot : Option String
  pub swapins : ℕ
  pub swapouts : ℕ
  pub swap_used : ℕ
  pub page_size : ℕ
  pub free_pct : ℕ

unfoldable pub counters : Reading → Counters
counters r = record {
  mono = r.mono;
  boot = r.boot;
  swapins = r.swapins;
  swapouts = r.swapouts;
  swap_used = r.swap_used;
  page_size = r.page_size;
  free_pct = r.free_pct;
}

-- What the kernel answered, before it is checked.
pub record Raw : Type 0 where
  pub level : ℕ
  pub free : ℕ
  pub memsize : ℕ
  pub swap_total : ℕ
  pub swap_used : ℕ
  pub loadavg : ℕ
  pub ncpu : ℕ

-- The part of a reading that `_instant` returns.
pub record Instant : Type 0 where
  pub pressure_level : PressureLevel
  pub free_pct : ℕ
  pub ram_total : ℕ
  pub swap_total : ℕ
  pub swap_used : ℕ
  pub load : ℕ
  pub ncpu : ℕ
  pub boot : Option String

pub data TelemetryError : Type 0 where
  unknown_level free_out_of_range zero_memsize : TelemetryError

pub data Checked (A : Type 0) : Type 0 where
  ok : A → Checked A
  raise : TelemetryError → Checked A

-- `PRESSURE_LEVELS.get(level)`, for the keys 1, 2 and 4.
abbrev pub pressure_levels : ℕ → Option PressureLevel
pressure_levels n =
    if n == 1
    then some normal
    else if n == 2
    then some warning
    else if n == 4
    then some critical
    else none

-- The checks of `_instant`, in their order. The raw values are unsigned.
unfoldable pub instant : Option String → Raw → Checked Instant
instant boot raw = elim (pressure_levels raw.level) [
  | none ↦ raise unknown_level
  | some level ↦
      if ltb 100 raw.free
      then raise free_out_of_range
      else if raw.memsize == 0
      then raise zero_memsize
      else ok (record {
        pressure_level = level;
        free_pct = raw.free;
        ram_total = raw.memsize;
        swap_total = raw.swap_total;
        swap_used = raw.swap_used;
        load = raw.loadavg;
        ncpu = raw.ncpu;
        boot = boot;
      })
]
