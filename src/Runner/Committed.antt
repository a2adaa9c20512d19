-- ===== src/Runner/Committed.antt =====
-- memmon_runner.py, `committed` and `committed_recorded`: memory in use plus what the admitted
-- jobs have reserved and not yet used.
pub mod Slack
use claude_memmon.Prelude.{
  ℕ, ◌+◌, ◌-◌, ◌*◌, ◌/◌, min, String, Bool, true, false, Option, none, some, List, [], ◌∷◌, ◌&&◌,
  ◌||◌, not, leb, ltb, str_eq, get_or, if◌then◌else◌,
}
use claude_memmon.Telemetry.Units.{seconds}
use claude_memmon.Telemetry.Score.{Ratio}
use claude_memmon.Telemetry.Rates.{Change, change}
use claude_memmon.Procs.Walk.{Proc}
use claude_memmon.Runner.Jobs.{Job, Child, child_of, is_waiting, reservation_of}
use claude_memmon.Runner.Footprint.{tree_footprint}

abbrev pub footprint_stale_s : ℕ
footprint_stale_s = seconds 10

-- `free` is the signed difference of the limit and what is committed. The inputs that the source
-- repeats beside them (ram, headroom_frac, reason) are left out.
pub record Committed : Type 0 where
  pub used : ℕ
  pub slack : ℕ
  pub limit : ℕ
  pub free : Change
  pub over : Bool
  pub degraded : Bool

-- `int(ram * (1 - frac))`, for the headroom fraction as an exact quotient.
unfoldable pub limit_of : ℕ → Ratio → ℕ
limit_of ram frac = ram * (frac.den - frac.num) / frac.den

abbrev pub total_of : ℕ → ℕ → ℕ → Bool → Committed
total_of used slack limit degraded = record {
  used = used;
  slack = slack;
  limit = limit;
  free = change (used + slack) limit;
  over = ltb limit (used + slack);
  degraded = degraded;
}

-- The lower of the two footprints, or 0 where one of them cannot be seen.
abbrev pub lower : Option ℕ → Option ℕ → ℕ
lower (some a) (some b) = min a b
lower _ _ = 0

-- Process tables from before and after the memory reading.
pub record Scans : Type 0 where
  pub before : Option (List Proc)
  pub after : Option (List Proc)

unfoldable pub measured : Scans → Bool → Option Child → ℕ
measured scans true child = 0
measured scans false child = elim scans.before [
  | none ↦ 0
  | some before ↦ elim scans.after [
    | none ↦ 0
    | some after ↦ lower (tree_footprint before child) (tree_footprint after child)
  ]
]

-- `row.get("id") == exclude`
abbrev pub is_excluded : Option String → Job → Bool
is_excluded none row = false
is_excluded (some id) row = str_eq row.id id

-- The reservations that are not yet used, over the admitted jobs.
unfoldable pub slack_of : List Job → Scans → Bool → Option String → ℕ
slack_of [] scans degraded exclude = 0
slack_of (row ∷ rows) scans degraded exclude =
    let rest = slack_of rows scans degraded exclude in
    if is_excluded exclude row || is_waiting row.state
    then rest
    else reservation_of row - measured scans degraded (child_of row) + rest

unfoldable pub committed : List Job → ℕ → ℕ → Ratio → Scans → Bool → Option String → Committed
committed rows used ram frac scans degraded exclude =
    total_of used (slack_of rows scans degraded exclude) (limit_of ram frac) degraded

-- A footprint of this run that was measured just now.
pub record Own : Type 0 where
  pub id : String
  pub footprint : Option ℕ

-- `r.get("footprint_ts") and now - r["footprint_ts"] <= FOOTPRINT_STALE_S`
abbrev is_fresh : ℕ → Option ℕ → Bool
is_fresh now none = false
is_fresh now (some at) = not (leb at 0) && leb (now - at) footprint_stale_s

unfoldable pub recorded_footprint : ℕ → Job → ℕ
recorded_footprint now row =
    if is_fresh now row.footprint_ts then get_or row.footprint_bytes 0 else 0

unfoldable pub footprint_for : Option Own → ℕ → Job → ℕ
footprint_for none now row = recorded_footprint now row
footprint_for (some own) now row =
    if str_eq row.id own.id
    then get_or own.footprint (recorded_footprint now row)
    else recorded_footprint now row

unfoldable pub recorded_slack : List Job → ℕ → Option Own → ℕ
recorded_slack [] now own = 0
recorded_slack (row ∷ rows) now own =
    let rest = recorded_slack rows now own in
    if is_waiting row.state then rest else reservation_of row - footprint_for own now row + rest

unfoldable pub committed_recorded : List Job → ℕ → ℕ → Ratio → ℕ → Option Own → Committed
committed_recorded rows used ram frac now own =
    total_of used (recorded_slack rows now own) (limit_of ram frac) false
