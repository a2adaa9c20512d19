-- ===== src/Telemetry/Score/Bounds.antt =====
-- What the verdict of `score` promises on its own.
use claude_memmon.Prelude.{
  ℕ, ◌+◌, ◌≤◌, String, Bool, Option, none, some, ◌≡◌, arith, ◌<◌, ◌-◌, ◌≢◌, ◌⊎◌, ◌↔◌, is_some, true,
  false,
}
use claude_memmon.Telemetry.Reading.{Reading}
use claude_memmon.Telemetry.Rates.{Rates, FreeDelta}
use claude_memmon.Telemetry.Score.{
  Scored, Level, unknown, healthy, watch, danger, critical, swap_points, thrash_points, free_points,
  growth_points, load_points, total_points, level_of, is_low, score,
}

swap_points-le : (vm : Reading) → (swap_points vm).0 ≤ 4
unfolding swap_points
swap_points-le vm = ground arith

thrash_points-le : (rates : Option Rates) → (thrash_points rates).0 ≤ 4
unfolding thrash_points
thrash_points-le none = ground arith
thrash_points-le (some r) = ground arith

free_points-le : (vm : Reading) → (free_points vm).0 ≤ 3
unfolding free_points
free_points-le vm = ground arith

growth_points-le : (rates : Option Rates) → (growth_points rates).0 ≤ 2
unfolding growth_points
growth_points-le none = ground arith
growth_points-le (some r) = ground arith

load_points-le : (vm : Reading) → (load_points vm).0 ≤ 2
unfolding load_points
load_points-le vm = ground arith

-- Without rates neither the paging nor the swap growth adds a point.
pub total_points-le_blind : (vm : Reading) → total_points vm none ≤ 9
unfolding total_points thrash_points growth_points
total_points-le_blind vm = omega (arith, swap_points-le vm, free_points-le vm, load_points-le vm)

pub total_points-le : (vm : Reading) (rates : Option Rates) → total_points vm rates ≤ 15
unfolding total_points
total_points-le vm rates = omega (
  arith,
  swap_points-le vm,
  thrash_points-le rates,
  free_points-le vm,
  growth_points-le rates,
  load_points-le vm,
)

-- The scores of each level.
abbrev pub Band : Level → ℕ → Type 0
Band critical n = 7 ≤ n
Band danger n = (4 ≤ n) × (n < 7)
Band watch n = (2 ≤ n) × (n < 4)
Band healthy n = n < 2
Band unknown n = ⊥

-- `d` is the least number of points that leads to another level, and `l` is that level.
pub record Leads (n d : ℕ) (l : Level) : Type 0 where
  pub some_points : 1 ≤ d
  pub reached : level_of (n + d) ≡ l
  pub other : level_of (n + d) ≢ level_of n
  pub not_before : level_of (n + (d - 1)) ≡ level_of n

abbrev pub Next : ℕ → Option Level → Option ℕ → Type 0
Next n none none = level_of n ≡ critical
Next n (some l) (some d) = (level_of n ≢ critical) × Leads n d l
Next n none (some d) = ⊥
Next n (some l) none = ⊥

-- The level that is shown, by the level of the points.
abbrev pub Shown : Bool → Scored → Type 0
Shown with_rates s =
    (s.level ≡ level_of s.score)
      × ((with_rates ≡ true) ⊎ (level_of s.score ≢ healthy))
      × ((level_of s.score ≢ watch) ⊎ (is_low s.headroom_min ≡ false) ⊎ (s.lh_streak < 2))
    ⊎ (s.level ≡ danger)
      × (level_of s.score ≡ watch)
      × (is_low s.headroom_min ≡ true)
      × (2 ≤ s.lh_streak)
    ⊎ (s.level ≡ unknown) × (level_of s.score ≡ healthy) × (with_rates ≡ false)

-- A reading is called healthy exactly when there are rates and it scores less than 2 points, and
-- unknown exactly when there are no rates and it scores less than 2 points: without rates nothing
-- is called healthy, and pressure that is seen without them is still reported.
pub score-healthy_iff :
    (vm : Reading) (rates : Option Rates) (delta : Option FreeDelta) (streak : ℕ)
    (reason : Option String) (advance : Bool)
    → let s = score vm rates delta streak reason advance in
      ((s.level ≡ healthy) ↔ ((is_some rates ≡ true) × (s.score < 2)))
      × ((s.level ≡ unknown) ↔ ((is_some rates ≡ false) × (s.score < 2)))
unfolding score level_of
score-healthy_iff vm rates delta streak reason advance = (
  ((λ h. (ground arith, ground arith)), λ h. ground arith),
  ((λ h. (ground arith, ground arith)), λ h. ground arith),
)
