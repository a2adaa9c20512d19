-- ===== src/Pressure/Series.antt =====
-- memmon_pressure.py, `series_stats` and the points that `update_job_history` keeps for one root.
-- Points are kept newest first, the end of the source's list. Awake time and CPU time are
-- nanoseconds; the growth is the exact quotient that the source rounds to a tenth.
pub mod Idle
use claude_memmon.Prelude.{
  ℕ, ◌+◌, ◌-◌, ◌*◌, ◌/◌, Bool, true, false, Option, none, some, List, [], ◌∷◌, ◌||◌, leb, ltb,
  is_some, if◌then◌else◌, keep, take,
}
use claude_memmon.Telemetry.Units.{seconds}
use claude_memmon.Telemetry.Rates.{Change, change}

abbrev pub history_max_points : ℕ
history_max_points = 60

abbrev pub growth_window_s : ℕ
growth_window_s = seconds 600

abbrev pub idle_min_s : ℕ
idle_min_s = seconds 600

-- `[ts, awake_s, footprint, cpu_ns]`; `ts` is not read.
pub record Point : Type 0 where
  pub awake : ℕ
  pub footprint : ℕ
  pub cpu : Option ℕ

-- The points of a root after a run.
unfoldable pub add_point : Point → List Point → List Point
add_point p points = take history_max_points (p ∷ points)

-- Bytes that were gained or lost over `span` nanoseconds awake.
pub record Growth : Type 0 where
  pub bytes : Change
  pub span : ℕ

pub record Stats : Type 0 where
  pub growth_mb_min : Option Growth
  pub idle_s : Option ℕ
  pub has_reason : Bool

-- `window[0]`: the oldest point that is kept.
unfoldable pub oldest_of : Point → List Point → Point
oldest_of p [] = p
oldest_of p (q ∷ qs) = oldest_of q qs

-- The growth over the window, with the newest point first.
unfoldable pub growth_over : List Point → Option Growth
growth_over [] = none
growth_over (p ∷ []) = none
growth_over (p ∷ q ∷ rest) =
    let first = oldest_of q rest in
    if ltb first.awake p.awake
    then some (record { bytes = change first.footprint p.footprint; span = p.awake - first.awake })
    else none

-- CPU time `a` before `b` was used at 2 % of a core or more.
abbrev used_cpu : ℕ → ℕ → ℕ → Bool
used_cpu a b dt = ltb b a || leb dt (50 * (b - a))

-- Whether the loop breaks between two neighbouring points.
unfoldable pub is_break : Point → Point → Bool
is_break a b = leb b.awake a.awake || elim a.cpu [
  | none ↦ true
  | some before ↦ elim b.cpu [
    | none ↦ true
    | some after ↦ used_cpu before after (b.awake - a.awake)
  ]
]

-- `start`: where the idle time begins, from `b` towards the older points.
unfoldable pub idle_from : Point → List Point → Point
idle_from b [] = b
idle_from b (a ∷ older) = let start = idle_from a older in if is_break a b then b else start

-- Seconds, or 0 below IDLE_MIN_S.
unfoldable pub idle_of : ℕ → ℕ
idle_of idle = if leb idle_min_s idle then idle / seconds 1 else 0

unfoldable pub series_stats : List Point → Stats
series_stats [] = record { growth_mb_min = none; idle_s = none; has_reason = true }
series_stats (p ∷ []) = record { growth_mb_min = none; idle_s = none; has_reason = true }
series_stats (p ∷ q ∷ older) =
    let window = keep (λ x. leb (p.awake - x.awake) growth_window_s) (p ∷ q ∷ older) in
    let growth = growth_over window in
    let start = idle_from p (q ∷ older) in
    record {
      growth_mb_min = growth;
      idle_s = some (idle_of (p.awake - start.awake));
      has_reason = if is_some growth then false else true;
    }
