-- ===== src/Telemetry/Cache/Verdicts.antt =====
-- What a strict verdict proves about the reading behind it.
use claude_memmon.Prelude.{
  ℕ, ◌+◌, ◌≤◌, ◌<◌, String, true, false, Option, none, some, ◌≡◌, refl, arith, is_some,
  Option-cases, inl, inr,
}
use claude_memmon.Telemetry.Units.{rate_min_s, fresh_s}
use claude_memmon.Telemetry.Reading.{Reading, Counters, counters, same_boot}
use claude_memmon.Telemetry.Rates.{rates_between}
use claude_memmon.Telemetry.Cache.{
  State, seed, conclude, with_baseline, from_baselines, cached_rates, predates, reseed_free,
  strict_verdict,
}

-- The reading behind an accepted verdict: of the state's boot, not older than the last wake, and
-- at most FRESH_S old.
pub record Accepts (s : State) (r : Reading) (now : ℕ) : Type 0 where
  pub boot_known : is_some r.boot ≡ true
  pub boot_same : same_boot s.boot_id r.boot ≡ true
  pub awake_since : predates r.mono s.last_wake_mono ≡ false
  pub fresh : now ≤ r.mono + fresh_s

with_baseline-fresh :
    (s : State) (r : Reading) (b fd : Counters) (now : ℕ)
    → (with_baseline s r b fd now).1.ok ≡ true
    → now ≤ r.mono + fresh_s
unfolding with_baseline conclude
with_baseline-fresh s r b fd now h = ground arith

from_baselines-fresh :
    (s : State) (r : Reading) (now : ℕ)
    → (from_baselines s r now).1.ok ≡ true
    → now ≤ r.mono + fresh_s
unfolding from_baselines
from_baselines-fresh s r now h = elim (Option-cases s.rate_baseline) [
  | inl unseeded ↦ absurd (ground arith)
  | inr (b, seeded) ↦
      let fd = reseed_free s r in
      ground (arith, with_baseline-fresh (record s { free_baseline = some fd }) r b fd now)
]

-- A verdict is accepted only for a reading that was taken, belongs to the boot of the state, is
-- not older than the last wake and is at most FRESH_S old.
pub strict_verdict-Accepts :
    (s : State) (reading : Option Reading) (now : ℕ) (error : Option String)
    → (strict_verdict s reading now error).1.ok ≡ true
    → (r : Reading) × (reading ≡ some r) × Accepts s r now
unfolding strict_verdict
strict_verdict-Accepts s none now error h = absurd (ground arith)
strict_verdict-Accepts s (some r) now error h =
    (r, refl, ground (arith, from_baselines-fresh s r now))

early-rates :
    (r next : Reading)
    → next.mono < r.mono + rate_min_s
    → rates_between (counters r) (counters next) ≡ none
unfolding rates_between counters
early-rates r next early = ground arith

from_baselines-seed :
    (r next : Reading) (now : ℕ)
    → next.mono < r.mono + rate_min_s
    → (from_baselines (seed r) next now).1.ok ≡ false
unfolding from_baselines seed with_baseline cached_rates
from_baselines-seed r next now early = ground (arith, early-rates r next early)

-- After a new boot is seen, the reading that seeded the baselines and every reading less than
-- RATE_MIN_S after it are refused.
pub strict_verdict_seeds :
    (s : State) (r next : Reading) (now later : ℕ) (error error' : Option String)
    → same_boot s.boot_id r.boot ≡ false
    → next.mono < r.mono + rate_min_s
    → let (s', v) = strict_verdict s (some r) now error in
      (v.ok ≡ false) × ((strict_verdict s' (some next) later error').1.ok ≡ false)
unfolding strict_verdict
strict_verdict_seeds s r next now later error error' other early =
    rw other (refl, ground (arith, from_baselines-seed r next later early))
