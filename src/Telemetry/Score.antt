-- ===== src/Telemetry/Score.antt =====
-- memmon_telemetry.py, `score`: the pressure verdict for one reading. The texts in `reasons` are
-- given by their kind; the numbers that the source formats into them are left out.
pub mod Bounds
pub mod Order
use claude_memmon.Prelude.{
  ℕ, ◌+◌, ◌-◌, ◌*◌, max, String, Bool, true, false, Option, none, some, List, [], ◌∷◌, ◌++◌, ◌&&◌,
  not, leb, ltb, if◌then◌else◌, is_some, str_eq,
}
use claude_memmon.Telemetry.Units.{seconds, mb, headroom_floor}
use claude_memmon.Telemetry.Reading.{Reading}
use claude_memmon.Telemetry.Rates.{Rates, FreeDelta}

pub data Level : Type 0 where
  unknown healthy watch danger critical : Level

pub data Color : Type 0 where
  red yellow green grey : Color

pub data Reason : Type 0 where
  swap_ratio swap_percent heavy_thrashing paging headroom_down headroom_at swap_growing : Reason
  load_on_cores load_at headroom_falling : Reason

-- Minutes as a quotient.
pub record Ratio : Type 0 where
  pub num : ℕ
  pub den : ℕ

-- The verdict without the rates and the trend that it repeats for display.
pub record Scored : Type 0 where
  pub level : Level
  pub color : Color
  pub score : ℕ
  pub reasons : List Reason
  pub headroom_min : Option Ratio
  pub next_level : Option Level
  pub to_next : Option ℕ
  pub lh_streak : ℕ
  pub rates_ok : Bool
  pub level_reason : Option String

-- The points of one signal, with the reasons it adds.
abbrev pub Points : Type 0
Points = ℕ × List Reason

unfoldable pub swap_points : Reading → Points
swap_points vm =
    let ram = max vm.ram_total 1 in
    if leb ram vm.swap_used
    then (4, swap_ratio ∷ [])
    else if leb ram (2 * vm.swap_used)
    then (2, swap_ratio ∷ [])
    else if leb ram (4 * vm.swap_used)
    then (1, swap_percent ∷ [])
    else (0, [])

-- `thrash >= n` in MB/s: bytes * 1000 >= n * nanoseconds. Without rates the sum is 0.
abbrev pub thrash_at_least : Option Rates → ℕ → Bool
thrash_at_least none n = leb n 0
thrash_at_least (some r) n = leb (n * r.span) ((r.swapin + r.swapout) * 1000)

unfoldable pub thrash_points : Option Rates → Points
thrash_points rates =
    if thrash_at_least rates 150
    then (4, heavy_thrashing ∷ [])
    else if thrash_at_least rates 50
    then (2, paging ∷ [])
    else if thrash_at_least rates 10
    then (1, paging ∷ [])
    else (0, [])

unfoldable pub free_points : Reading → Points
free_points vm =
    if leb vm.free_pct 12
    then (3, headroom_down ∷ [])
    else if leb vm.free_pct 20
    then (2, headroom_at ∷ [])
    else (0, [])

-- `growth >= n` in MB/min, for a positive `n`.
abbrev pub growth_at_least : Option Rates → ℕ → Bool
growth_at_least none n = leb n 0
growth_at_least (some r) n = leb (n * mb * r.span) (r.swap_growth.rise * seconds 60)

unfoldable pub growth_points : Option Rates → Points
growth_points rates =
    if growth_at_least rates 500
    then (2, swap_growing ∷ [])
    else if growth_at_least rates 150
    then (1, swap_growing ∷ [])
    else (0, [])

-- `load / max(ncpu, 1) >= 3` and `>= 1.75`, with the load in 1/2048.
unfoldable pub load_points : Reading → Points
load_points vm =
    let cores = 2048 * max vm.ncpu 1 in
    if leb (3 * cores) vm.load
    then (2, load_on_cores ∷ [])
    else if leb (7 * cores) (4 * vm.load)
    then (1, load_at ∷ [])
    else (0, [])

unfoldable pub total_points : Reading → Option Rates → ℕ
total_points vm rates =
    (swap_points vm).0
    + (thrash_points rates).0
    + (free_points vm).0
    + (growth_points rates).0
    + (load_points vm).0

unfoldable pub all_reasons : Reading → Option Rates → List Reason
all_reasons vm rates =
    (swap_points vm).1
    ++ ((thrash_points rates).1
        ++ ((free_points vm).1 ++ ((growth_points rates).1 ++ (load_points vm).1)))

-- `(free - 20) / drop` with `drop > 0.5` in percent per minute, or nothing.
unfoldable pub headroom : Reading → Option FreeDelta → Option Ratio
headroom vm none = none
headroom vm (some d) =
    if ltb d.span (2 * (d.free.fall * seconds 60)) && ltb headroom_floor vm.free_pct
    then some
        (record { num = (vm.free_pct - headroom_floor) * d.span; den = d.free.fall * seconds 60 })
    else none

-- The level that the points alone give.
unfoldable pub level_of : ℕ → Level
level_of pts =
    if leb 7 pts
    then critical
    else if leb 4 pts
    then danger
    else if leb 2 pts
    then watch
    else healthy

unfoldable pub color_of : Level → Color
color_of critical = red
color_of danger = red
color_of watch = yellow
color_of healthy = green
color_of unknown = grey

-- `headroom is not None and headroom < 5`
abbrev pub is_low : Option Ratio → Bool
is_low none = false
is_low (some h) = ltb h.num (5 * h.den)

unfoldable pub streak_after : Option FreeDelta → Bool → Bool → ℕ → ℕ
streak_after none advance low prev = prev
streak_after (some d) advance low prev = if advance then if low then prev + 1 else 0 else prev

-- A low headroom seen twice in a row lifts WATCH, and only WATCH, to DANGER.
abbrev pub is_lifted : Level → Bool → ℕ → Bool
is_lifted watch low streak = low && leb 2 streak
is_lifted _ low streak = false

unfoldable pub next_level : ℕ → Option Level
next_level pts =
    if ltb pts 2
    then some watch
    else if ltb pts 4
    then some danger
    else if ltb pts 7
    then some critical
    else none

unfoldable pub to_next : ℕ → Option ℕ
to_next pts =
    if ltb pts 2
    then some (2 - pts)
    else if ltb pts 4
    then some (4 - pts)
    else if ltb pts 7
    then some (7 - pts)
    else none

abbrev is_healthy : Level → Bool
is_healthy healthy = true
is_healthy _ = false

-- `reason or default`: an empty text counts as missing.
abbrev pub or_text : Option String → String → String
or_text none d = d
or_text (some t) d = if str_eq t "" then d else t

unfoldable pub score : Reading → Option Rates → Option FreeDelta → ℕ → Option String → Bool → Scored
score vm rates free_delta prev_lh_streak level_reason advance =
    let pts = total_points vm rates in
    let base = level_of pts in
    let room = headroom vm free_delta in
    let low = is_low room in
    let streak = streak_after free_delta advance low prev_lh_streak in
    let lifted = is_lifted base low streak in
    let level = if lifted then danger else base in
    let blind = not (is_some rates) && is_healthy level in
    record {
      level = if blind then unknown else level;
      color = color_of (if blind then unknown else level);
      score = pts;
      reasons =
          if lifted then all_reasons vm rates ++ headroom_falling ∷ [] else all_reasons vm rates;
      headroom_min = if is_healthy level then none else room;
      next_level = next_level pts;
      to_next = to_next pts;
      lh_streak = streak;
      rates_ok = is_some rates;
      level_reason =
          if is_some rates
          then none
          else if blind
          then some (or_text level_reason "no rate baseline")
          else level_reason;
    }
