-- ===== src/Telemetry/Units.antt =====
-- memmon_telemetry.py, the constants. Clock values (float seconds in the source) are whole
-- nanoseconds, the resolution of `clock_gettime`, so every comparison is exact. Sizes are bytes.
use claude_memmon.Prelude.{ℕ, ◌*◌}

-- `n` seconds on any of the clocks.
abbrev pub seconds : ℕ → ℕ
seconds n = n * 1000000000

abbrev pub mb : ℕ
mb = 1048576

abbrev pub headroom_floor : ℕ
headroom_floor = 20

abbrev pub rate_min_s : ℕ
rate_min_s = seconds 2

abbrev pub baseline_max_s : ℕ
baseline_max_s = seconds 300

abbrev pub free_delta_min_s : ℕ
free_delta_min_s = seconds 30

abbrev pub cache_fresh_s : ℕ
cache_fresh_s = seconds 5

abbrev pub fresh_s : ℕ
fresh_s = seconds 5

abbrev pub wake_s : ℕ
wake_s = seconds 5

abbrev pub gap_s : ℕ
gap_s = seconds 150

abbrev pub recovery_s : ℕ
recovery_s = seconds 30

abbrev pub good_gap_s : ℕ
good_gap_s = seconds 4
