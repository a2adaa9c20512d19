-- ===== src/Telemetry/Cache/Invariant.antt =====
-- What holds of the shared cache between two verdicts.
use claude_memmon.Prelude.{
  ℕ, ◌≤◌, String, Bool, true, false, Option, none, some, ◌≡◌, refl, arith, eq_iff, sym, subst,
  is_some, Bool-cases, Option-cases, inl, inr,
}
use claude_memmon.Telemetry.Units.{rate_min_s, baseline_max_s, free_delta_min_s}
use claude_memmon.Telemetry.Reading.{Reading, Counters, counters, same_boot}
use claude_memmon.Telemetry.Rates.{Rates, FreeDelta, rates_between, free_delta_between}
use claude_memmon.Telemetry.Cache.{
  State, seed, is_stale, note_clocks, reseed_free, conclude, free_trend, adopt, cached_rates,
  predates, with_baseline, from_baselines, strict_verdict,
}

abbrev pub OfBoot : Option String → Option Counters → Type 0
OfBoot boot none = Unit
OfBoot boot (some c) = c.boot ≡ boot

abbrev pub RatesSpan : Option Rates → Type 0
RatesSpan none = Unit
RatesSpan (some q) = (rate_min_s ≤ q.span) × (q.span ≤ baseline_max_s)

abbrev pub DeltaSpan : Option FreeDelta → Type 0
DeltaSpan none = Unit
DeltaSpan (some d) = (free_delta_min_s ≤ d.span) × (d.span ≤ baseline_max_s)

-- Both baselines belong to the boot of the state, and what is cached was measured over a
-- baseline of the length that its use asks for.
pub record IsConsistent (s : State) : Type 0 where
  pub rate_boot : OfBoot s.boot_id s.rate_baseline
  pub free_boot : OfBoot s.boot_id s.free_baseline
  pub rates_span : RatesSpan s.rates
  pub delta_span : DeltaSpan s.free_delta_min

same_boot→eq : (a b : Option String) → same_boot a b ≡ true → a ≡ b
same_boot→eq none none h = refl
same_boot→eq none (some b) h = ground arith
same_boot→eq (some a) none h = ground arith
same_boot→eq (some a) (some b) h = ground (arith, eq_iff a b)

seed-IsConsistent : (r : Reading) → IsConsistent (seed r)
unfolding seed counters
seed-IsConsistent r = record {
  rate_boot = refl;
  free_boot = refl;
  rates_span = tt;
  delta_span = tt;
}

pub note_clocks-IsConsistent :
    (s : State) (mono awake : ℕ) → IsConsistent s → IsConsistent (note_clocks s mono awake)
unfolding note_clocks
note_clocks-IsConsistent s mono awake v = ground arith

counters-boot :
    (s : State) (r : Reading) → s.boot_id ≡ r.boot → OfBoot s.boot_id (some (counters r))
unfolding counters
counters-boot s r same = sym same

reseed_free-boot :
    (s : State) (r : Reading)
    → s.boot_id ≡ r.boot
    → OfBoot s.boot_id s.free_baseline
    → (reseed_free s r).boot ≡ s.boot_id
unfolding reseed_free counters
reseed_free-boot s r same h = ground arith

rates_between-span :
    (b : Counters) (r : Reading) (wake : Option ℕ)
    → is_stale (some b) wake r ≡ false
    → RatesSpan (rates_between b (counters r))
unfolding rates_between is_stale counters
rates_between-span b r wake h = ground arith

free_trend-span : (b : Counters) (r : Reading) → DeltaSpan (free_trend b r)
unfolding free_trend free_delta_between
free_trend-span b r = ground arith

conclude-IsConsistent :
    (s : State) (r : Reading) (q : Rates) (advance : Bool) (now : ℕ)
    → IsConsistent s
    → IsConsistent (conclude s r q advance now).0
unfolding conclude
conclude-IsConsistent s r q advance now v = ground arith

adopt-IsConsistent :
    (s : State) (r : Reading) (q : Rates) (fd : Counters)
    → IsConsistent s
    → s.boot_id ≡ r.boot
    → fd.boot ≡ s.boot_id
    → RatesSpan (some q)
    → IsConsistent (adopt s r q fd)
unfolding adopt counters
adopt-IsConsistent s r q fd v same of_boot span = ground (arith, free_trend-span fd r)

with_baseline-IsConsistent :
    (s : State) (r : Reading) (b fd : Counters) (now : ℕ)
    → IsConsistent s
    → s.boot_id ≡ r.boot
    → fd.boot ≡ s.boot_id
    → is_stale (some b) s.last_wake_mono r ≡ false
    → IsConsistent (with_baseline s r b fd now).0
unfolding with_baseline
with_baseline-IsConsistent s r b fd now v same of_boot young =
    elim (Option-cases (rates_between b (counters r))) [
      | inl too_young ↦ elim (Option-cases (cached_rates s now)) [
        | inl stale ↦ rw (too_young, with_baseline, stale) v
        | inr (q, cached) ↦
            rw (too_young, with_baseline, cached) (conclude-IsConsistent s r q false now v)
      ]
      | inr (q, fresh) ↦
          let span : RatesSpan (some q) =
            subst RatesSpan fresh (rates_between-span b r s.last_wake_mono young) in
          rw (fresh, with_baseline)
            (conclude-IsConsistent (adopt s r q fd) r q (is_some (free_trend fd r)) now
              (adopt-IsConsistent s r q fd v same of_boot span))
    ]

from_baselines-IsConsistent :
    (s : State) (r : Reading) (now : ℕ)
    → IsConsistent s
    → s.boot_id ≡ r.boot
    → IsConsistent (from_baselines s r now).0
unfolding from_baselines
from_baselines-IsConsistent s r now v same =
    let fd = reseed_free s r in
    let of_boot : fd.boot ≡ s.boot_id = reseed_free-boot s r same v.free_boot in
    let v' : IsConsistent (record s { free_baseline = some fd }) = record {
      rate_boot = v.rate_boot;
      free_boot = of_boot;
      rates_span = v.rates_span;
      delta_span = v.delta_span;
    } in
    let reseeded : IsConsistent
        (record s { free_baseline = some fd; rate_baseline = some (counters r) }) =
      record {
        rate_boot = counters-boot s r same;
        free_boot = of_boot;
        rates_span = v.rates_span;
        delta_span = v.delta_span;
      } in
    elim (Option-cases s.rate_baseline) [
      | inl unseeded ↦ ground (arith, reseeded)
      | inr (b, seeded) ↦ elim (Bool-cases (is_stale (some b) s.last_wake_mono r)) [
        | inl stale ↦ ground (arith, reseeded)
        | inr young ↦
            let step =
              with_baseline-IsConsistent (record s { free_baseline = some fd }) r b fd now v' same
                of_boot young in
            ground (arith, step)
      ]
    ]

-- Whatever is read, the baselines stay those of the boot that the state is for, cached rates were
-- measured over 2 to 300 seconds and a cached free trend over 30 to 300 seconds: no rate is ever
-- divided by a short or empty span, and none bridges a boot.
pub strict_verdict-IsConsistent :
    (s : State) (reading : Option Reading) (now : ℕ) (error : Option String)
    → IsConsistent s
    → IsConsistent (strict_verdict s reading now error).0
unfolding strict_verdict
strict_verdict-IsConsistent s none now error v = v
strict_verdict-IsConsistent s (some r) now error v =
    elim (Bool-cases (same_boot s.boot_id r.boot)) [
      | inr other ↦ rw other (seed-IsConsistent r)
      | inl same ↦ elim (Bool-cases (is_some r.boot)) [
        | inr unknown ↦ rw (same, unknown) (seed-IsConsistent r)
        | inl known ↦ elim (Bool-cases (predates r.mono s.last_wake_mono)) [
          | inl early ↦ rw (same, known, early) v
          | inr later ↦
              rw (same, known, later)
                (from_baselines-IsConsistent s r now v (same_boot→eq s.boot_id r.boot same))
        ]
      ]
    ]
