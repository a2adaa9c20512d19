-- ===== src/Telemetry/Cache.antt =====
-- memmon_telemetry.py, the shared rate cache: `fresh_state`, `note_clocks` and `strict_verdict`.
-- The state is the record that the runner keeps in admission-state.json under ledger.lock.
pub mod Invariant
pub mod Verdicts
use claude_memmon.Prelude.{
  ℕ, ◌+◌, ◌-◌, String, Bool, true, false, Option, none, some, ◌||◌, not, leb, ltb, if◌then◌else◌,
  is_some,
}
use claude_memmon.Telemetry.Units.{baseline_max_s, free_delta_min_s, cache_fresh_s, fresh_s, wake_s}
use claude_memmon.Telemetry.Reading.{PressureLevel, Reading, Counters, counters, same_boot}
use claude_memmon.Telemetry.Rates.{Rates, FreeDelta, rates_between, free_delta_between}
use claude_memmon.Telemetry.Score.{Level, Scored, score, or_text}

pub record State : Type 0 where
  pub boot_id : Option String
  pub last_bad_mono : Option ℕ
  pub last_good_mono : Option ℕ
  pub recovery_start_mono : Option ℕ
  pub last_wake_mono : Option ℕ
  pub clock_pair : Option (ℕ × ℕ)
  pub rate_baseline : Option Counters
  pub free_baseline : Option Counters
  pub rates : Option Rates
  pub rates_mono : Option ℕ
  pub free_delta_min : Option FreeDelta
  pub lh_streak : ℕ

unfoldable pub fresh_state : Option String → State
fresh_state boot = record {
  boot_id = boot;
  last_bad_mono = none;
  last_good_mono = none;
  recovery_start_mono = none;
  last_wake_mono = none;
  clock_pair = none;
  rate_baseline = none;
  free_baseline = none;
  rates = none;
  rates_mono = none;
  free_delta_min = none;
  lh_streak = 0;
}

-- `(now_mono - pair[0]) - (now_awake - pair[1]) > WAKE_S`, without the signed differences.
unfoldable pub woke : Option (ℕ × ℕ) → ℕ → ℕ → Bool
woke none now_mono now_awake = false
woke (some (mono, awake)) now_mono now_awake = ltb (wake_s + mono + now_awake) (now_mono + awake)

unfoldable pub note_clocks : State → ℕ → ℕ → State
note_clocks s now_mono now_awake =
    if woke s.clock_pair now_mono now_awake
    then record s {
      last_wake_mono = some now_mono;
      last_bad_mono = some now_mono;
      recovery_start_mono = none;
      clock_pair = some (now_mono, now_awake);
    }
    else record s { clock_pair = some (now_mono, now_awake) }

-- The verdict without used_bytes and ram_total, which it repeats from the reading.
pub record Verdict : Type 0 where
  pub ok : Bool
  pub reason : Option String
  pub level : Option Level
  pub pressure_level : Option PressureLevel
  pub mono : Option ℕ
  pub scored : Option Scored

-- `failed(reason)` for a reading that was taken.
abbrev failed : State → Reading → String → State × Verdict
failed s r reason = (
  s,
  record {
    ok = false;
    reason = some reason;
    level = none;
    pressure_level = some r.pressure_level;
    mono = some r.mono;
    scored = none;
  },
)

-- `x is not None and mono < x`
abbrev predates : ℕ → Option ℕ → Bool
predates mono none = false
predates mono (some wake) = ltb mono wake

-- Why a baseline cannot be used for `r`: none, another boot, too old, or from before the wake.
unfoldable pub is_stale : Option Counters → Option ℕ → Reading → Bool
is_stale none wake r = true
is_stale (some b) wake r =
    not (same_boot b.boot r.boot) || ltb baseline_max_s (r.mono - b.mono) || predates b.mono wake

-- The free baseline, re-seeded where it is stale.
unfoldable pub reseed_free : State → Reading → Counters
reseed_free s r = elim s.free_baseline [
  | none ↦ counters r
  | some b ↦ if is_stale (some b) s.last_wake_mono r then counters r else b
]

-- The verdict on the rates that were found: `v = score(...)` to the end of `strict_verdict`.
unfoldable pub conclude : State → Reading → Rates → Bool → ℕ → State × Verdict
conclude s r rates advance now_mono =
    let v = score r (some rates) s.free_delta_min s.lh_streak none advance in
    let stale = ltb fresh_s (now_mono - r.mono) in
    (
      if advance then record s { lh_streak = v.lh_streak } else s,
      record {
        ok = not stale;
        reason = if stale then some "reading is stale" else none;
        level = some v.level;
        pressure_level = some r.pressure_level;
        mono = some r.mono;
        scored = some v;
      },
    )

-- `fd`: the free trend, when its baseline is old enough.
unfoldable pub free_trend : Counters → Reading → Option FreeDelta
free_trend b r =
    if leb free_delta_min_s (r.mono - b.mono) then free_delta_between b (counters r) else none

-- The state after new rates: both baselines move on, and a trend replaces the old one.
unfoldable pub adopt : State → Reading → Rates → Counters → State
adopt s r rates fd_base =
    let fd = free_trend fd_base r in
    record s {
      rate_baseline = some (counters r);
      free_baseline =
          some (if leb free_delta_min_s (r.mono - fd_base.mono) then counters r else fd_base);
      rates = some rates;
      rates_mono = some r.mono;
      free_delta_min = if is_some fd then fd else s.free_delta_min;
    }

-- The rates that are reused when the baseline is too young: at most CACHE_FRESH_S old.
unfoldable pub cached_rates : State → ℕ → Option Rates
cached_rates s now_mono = elim s.rates_mono [
  | none ↦ none
  | some at ↦ if leb (now_mono - at) cache_fresh_s then s.rates else none
]

-- From `if reading["mono"] - base["mono"] >= RATE_MIN_S` on, over a usable baseline.
unfoldable pub with_baseline : State → Reading → Counters → Counters → ℕ → State × Verdict
with_baseline s r base fd_base now_mono = elim (rates_between base (counters r)) [
  | some rates ↦
      conclude (adopt s r rates fd_base) r rates (is_some (free_trend fd_base r)) now_mono
  | none ↦ elim (cached_rates s now_mono) [
    | some rates ↦ conclude s r rates false now_mono
    | none ↦ failed s r "rate cache stale"
  ]
]

-- The part of `strict_verdict` behind its checks of the boot and the wake.
unfoldable pub from_baselines : State → Reading → ℕ → State × Verdict
from_baselines s r now_mono =
    let fd_base = reseed_free s r in
    let s' = record s { free_baseline = some fd_base } in
    elim s.rate_baseline [
      | none ↦ failed (record s' { rate_baseline = some (counters r) }) r "rate baseline re-seeded"
      | some base ↦
          if is_stale (some base) s.last_wake_mono r
          then failed (record s' { rate_baseline = some (counters r) }) r "rate baseline re-seeded"
          else with_baseline s' r base fd_base now_mono
    ]

-- The state after a reading of another boot: empty, but for the two baselines.
unfoldable pub seed : Reading → State
unfolding fresh_state
seed r = record (fresh_state r.boot) {
  rate_baseline = some (counters r);
  free_baseline = some (counters r);
}

unfoldable pub strict_verdict : State → Option Reading → ℕ → Option String → State × Verdict
strict_verdict s none now_mono error = (
  s,
  record {
    ok = false;
    reason = some (or_text error "telemetry unavailable");
    level = none;
    pressure_level = none;
    mono = none;
    scored = none;
  },
)
strict_verdict s (some r) now_mono error =
    if not (same_boot s.boot_id r.boot) || not (is_some r.boot)
    then failed (seed r) r "new boot: rate baseline seeded"
    else if predates r.mono s.last_wake_mono
    then failed s r "reading predates the last wake"
    else from_baselines s r now_mono
