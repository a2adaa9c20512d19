-- ===== src/Telemetry/Rates.antt =====
-- memmon_telemetry.py, `rates_between` and `free_delta_between`. A float rate is kept as its exact
-- quotient: the amounts that changed, over the nanoseconds between the readings.
use claude_memmon.Prelude.{ℕ, ◌-◌, ◌*◌, Option, none, some, ◌||◌, ◌==◌, ltb, not, if◌then◌else◌}
use claude_memmon.Telemetry.Units.{rate_min_s, free_delta_min_s, baseline_max_s}
use claude_memmon.Telemetry.Reading.{Counters, same_boot}

-- A signed difference `cur - prev`, as the part above zero and the part below it.
pub record Change : Type 0 where
  pub rise : ℕ
  pub fall : ℕ

abbrev pub change : ℕ → ℕ → Change
change prev cur = record { rise = cur - prev; fall = prev - cur }

-- Bytes paged in and out, and the change of the swap in use, over `span` nanoseconds.
pub record Rates : Type 0 where
  pub swapin : ℕ
  pub swapout : ℕ
  pub swap_growth : Change
  pub span : ℕ

-- `cur.get("page_size") or prev.get("page_size")`
abbrev page_of : Counters → Counters → ℕ
page_of prev cur = if cur.page_size == 0 then prev.page_size else cur.page_size

-- `none` stands for the ValueError on a baseline younger than RATE_MIN_S.
unfoldable pub rates_between : Counters → Counters → Option Rates
rates_between prev cur =
    let span = cur.mono - prev.mono in
    if ltb span rate_min_s
    then none
    else some (record {
      swapin = (cur.swapins - prev.swapins) * page_of prev cur;
      swapout = (cur.swapouts - prev.swapouts) * page_of prev cur;
      swap_growth = change prev.swap_used cur.swap_used;
      span = span;
    })

-- The change of free_pct, over `span` nanoseconds.
pub record FreeDelta : Type 0 where
  pub free : Change
  pub span : ℕ

unfoldable pub free_delta_between : Counters → Counters → Option FreeDelta
free_delta_between prev cur =
    let span = cur.mono - prev.mono in
    if not (same_boot prev.boot cur.boot)
    then none
    else if ltb span free_delta_min_s || ltb baseline_max_s span
    then none
    else some (record { free = change prev.free_pct cur.free_pct; span = span })
