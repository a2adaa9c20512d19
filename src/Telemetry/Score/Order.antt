-- ===== src/Telemetry/Score/Order.antt =====
-- The verdict never gets milder when a reading gets worse.
use claude_memmon.Prelude.{ℕ, ◌+◌, ◌≤◌, ◌<◌, String, Bool, true, Option, none, some, ◌≡◌, arith}
use claude_memmon.Telemetry.Reading.{Reading}
use claude_memmon.Telemetry.Rates.{Rates, FreeDelta}
use claude_memmon.Telemetry.Score.{
  Level, unknown, healthy, watch, danger, critical, swap_points, free_points, load_points,
  total_points, headroom, is_low, level_of, streak_after, score,
}

-- `w` is at least as bad as `v` on the same machine: more swap in use, less free memory, more load.
pub record Worse (v w : Reading) : Type 0 where
  pub same_ram : v.ram_total ≡ w.ram_total
  pub same_ncpu : v.ncpu ≡ w.ncpu
  pub more_swap : v.swap_used ≤ w.swap_used
  pub less_free : w.free_pct ≤ v.free_pct
  pub more_load : v.load ≤ w.load

abbrev pub severity : Level → ℕ
severity unknown = 0
severity healthy = 0
severity watch = 1
severity danger = 2
severity critical = 3

module _ (v w : Reading) (worse : Worse v w) where
  swap_points_mono : (swap_points v).0 ≤ (swap_points w).0
  unfolding swap_points
  swap_points_mono = ground arith

  free_points_mono : (free_points v).0 ≤ (free_points w).0
  unfolding free_points
  free_points_mono = ground arith

  -- Falling through the floor costs the two points that the lift needs.
  free_points-crossing :
      20 < v.free_pct → w.free_pct ≤ 20 → (free_points v).0 + 2 ≤ (free_points w).0
  unfolding free_points
  free_points-crossing a b = ground arith

  load_points_mono : (load_points v).0 ≤ (load_points w).0
  unfolding load_points
  load_points_mono = ground arith

  total_points_mono : (rates : Option Rates) → total_points v rates ≤ total_points w rates
  unfolding total_points
  total_points_mono rates = omega (arith, swap_points_mono, free_points_mono, load_points_mono)

  total_points-crossing :
      (rates : Option Rates)
      → 20 < v.free_pct
      → w.free_pct ≤ 20
      → total_points v rates + 2 ≤ total_points w rates
  unfolding total_points
  total_points-crossing rates a b =
      omega (arith, swap_points_mono, free_points-crossing a b, load_points_mono)

  -- A low headroom stays low, unless the free memory is below the floor already.
  low_or_crossed :
      (delta : Option FreeDelta)
      → is_low (headroom v delta) ≡ true
      → (20 < v.free_pct) × (20 < w.free_pct → is_low (headroom w delta) ≡ true)
  unfolding headroom
  low_or_crossed none h = ground arith
  low_or_crossed (some d) h = (ground arith, λ k. grind arith)

-- A reading that is worse in swap, free memory and load, with the same rates, free trend and
-- streak, never gets a milder level. The lift of a low headroom is included: a reading that loses
-- its headroom by falling below the floor is scored as high as the lift would have put it.
pub score_mono :
    (v w : Reading) (rates : Option Rates) (delta : Option FreeDelta) (streak : ℕ)
    (reason : Option String) (advance : Bool)
    → Worse v w
    → severity (score v rates delta streak reason advance).level
      ≤ severity (score w rates delta streak reason advance).level
unfolding score level_of streak_after
score_mono v w rates delta streak reason advance worse = ground (
  arith,
  total_points_mono v w worse rates,
  total_points-crossing v w worse rates,
  low_or_crossed v w worse delta,
)
