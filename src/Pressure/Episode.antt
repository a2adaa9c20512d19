-- ===== src/Pressure/Episode.antt =====
-- memmon_pressure.py, `under_pressure` and the notification episode: `new_episode_state`,
-- `episode_step`, `run_episode`, `rollback_notification`. The file pressure-episode.json is an
-- `Option EpisodeState`; each function runs under the episode lock. Clock values are nanoseconds.
pub mod Steps
pub mod Ahead
pub mod Once
pub mod Floor
pub mod Rollback
pub mod Reboot
use claude_memmon.Prelude.{
  ℕ, ◌+◌, ◌-◌, String, Bool, true, false, Option, none, some, List, [], ◌∷◌, ◌++◌, ◌&&◌, ◌||◌, not,
  leb, ltb, ◌==◌, str_eq, is_some, if◌then◌else◌, keep,
}
use claude_memmon.Telemetry.Units.{seconds}
use claude_memmon.Telemetry.Reading.{PressureLevel, warning, critical, same_boot}
use claude_memmon.Telemetry.Score.{Level}

abbrev pub episode_calm_s : ℕ
episode_calm_s = seconds 600

abbrev pub notify_floor_s : ℕ
notify_floor_s = seconds 300

abbrev pub gap_s : ℕ
gap_s = seconds 150

abbrev is_bad_level : Option Level → Bool
is_bad_level (some Level.danger) = true
is_bad_level (some Level.critical) = true
is_bad_level _ = false

abbrev is_bad_kernel : Option PressureLevel → Bool
is_bad_kernel (some warning) = true
is_bad_kernel (some critical) = true
is_bad_kernel _ = false

-- `rates_unavailable` is `rates == "unavailable"`.
unfoldable pub under_pressure : Option Level → Bool → Option PressureLevel → Bool
under_pressure level rates_unavailable kernel_level =
    is_bad_level level || rates_unavailable && is_bad_kernel kernel_level

pub record EpisodeState : Type 0 where
  pub v : ℕ
  pub boot : Option String
  pub active : Bool
  pub episode : ℕ
  pub started_ts : Option ℕ
  pub calm_s : ℕ
  pub last_calm_mono : Option ℕ
  pub notified : List (String × ℕ)
  pub last_notify_ts : Option ℕ
  pub last_notify_mono : Option ℕ

unfoldable pub new_episode_state : Option String → EpisodeState
new_episode_state boot = record {
  v = 1;
  boot = boot;
  active = false;
  episode = 0;
  started_ts = none;
  calm_s = 0;
  last_calm_mono = none;
  notified = [];
  last_notify_ts = none;
  last_notify_mono = none;
}

-- A suggestion row; the episode only reads its job id.
pub record Row : Type 0 where
  pub job_id : String
  pub owner_id : String
  pub footprint : ℕ

-- The keyword arguments of `episode_step`.
pub record Run : Type 0 where
  pub now_ts : ℕ
  pub mono : ℕ
  pub boot : Option String
  pub pressured : Bool
  pub unknown : Bool
  pub gap : Bool
  pub rows : List Row

-- `job_id in notified`
unfoldable pub has_key : String → List (String × ℕ) → Bool
has_key key [] = false
has_key key ((k, t) ∷ rest) = str_eq k key || has_key key rest

-- The state that the step starts from: another version or boot begins anew.
unfoldable pub current : Option EpisodeState → Option String → EpisodeState
current none boot = new_episode_state boot
current (some st) boot = if st.v == 1 && same_boot st.boot boot then st else new_episode_state boot

-- `if gap: st["last_calm_mono"] = None`
unfoldable pub forget_calm : Bool → EpisodeState → EpisodeState
forget_calm gap st = if gap then record st { last_calm_mono = none } else st

-- The first lines of the pressured branch: an episode starts, and nothing is calm.
unfoldable pub start : ℕ → EpisodeState → EpisodeState
start now_ts st = if st.active then record st { calm_s = 0; last_calm_mono = none } else record st {
  active = true;
  episode = st.episode + 1;
  started_ts = some now_ts;
  notified = [];
  calm_s = 0;
  last_calm_mono = none;
}

-- The rows whose job was not notified in this episode.
unfoldable pub fresh_rows : List (String × ℕ) → List Row → List Row
fresh_rows notified rows = keep (λ r. not (has_key r.job_id notified)) rows

-- `last is None or mono - last >= NOTIFY_FLOOR_S`
abbrev pub floor_passed : Option ℕ → ℕ → Bool
floor_passed none mono = true
floor_passed (some last) mono = leb notify_floor_s (mono - last)

-- `st["notified"][job_id] = mono`, and the floor.
unfoldable pub mark : Row → ℕ → ℕ → EpisodeState → EpisodeState
mark row mono now_ts st = record st {
  notified = st.notified ++ (row.job_id, mono) ∷ [];
  last_notify_ts = some now_ts;
  last_notify_mono = some mono;
}

-- The fresh rows: the first of them is notified once the floor has passed.
unfoldable pub notify_first : ℕ → ℕ → List Row → EpisodeState → EpisodeState × List Row
notify_first mono now_ts [] st = (st, [])
notify_first mono now_ts (row ∷ rows) st =
    if floor_passed st.last_notify_mono mono then (mark row mono now_ts st, row ∷ []) else (st, [])

unfoldable pub pressured_step : Run → EpisodeState → EpisodeState × List Row
pressured_step run st =
    let st' = start run.now_ts st in
    notify_first run.mono run.now_ts (fresh_rows st'.notified run.rows) st'

-- `prev is not None and 0 < mono - prev <= GAP_S`: the calm time that this reading adds.
unfoldable pub calm_added : Option ℕ → ℕ → ℕ
calm_added none mono = 0
calm_added (some prev) mono =
    if ltb 0 (mono - prev) && leb (mono - prev) gap_s then mono - prev else 0

unfoldable pub calm_step : ℕ → EpisodeState → EpisodeState
calm_step mono st =
    let calm = st.calm_s + calm_added st.last_calm_mono mono in
    if leb episode_calm_s calm
    then record st { active = false; notified = []; calm_s = 0; last_calm_mono = none }
    else record st { calm_s = calm; last_calm_mono = some mono }

unfoldable pub episode_step : Option EpisodeState → Run → EpisodeState × List Row
episode_step state run =
    let st = forget_calm run.gap (current state run.boot) in
    if run.pressured
    then pressured_step run st
    else if run.unknown
    then (record st { last_calm_mono = none }, [])
    else if st.active
    then (calm_step run.mono st, [])
    else (st, [])

-- The floor before a step: `(last_notify_ts, last_notify_mono)` of the file.
abbrev pub Before : Type 0
Before = Option ℕ × Option ℕ

unfoldable pub floor_of : Option EpisodeState → Before
floor_of none = (none, none)
floor_of (some st) = (st.last_notify_ts, st.last_notify_mono)

-- The new file, the rows to notify and the floor before.
unfoldable pub run_episode : Option EpisodeState → Run → EpisodeState × List Row × Before
run_episode state run = let (st, out) = episode_step state run in (st, out, floor_of state)

-- `if notified.get(job_id) == mono: del notified[job_id]`
unfoldable pub unmark : String → ℕ → List (String × ℕ) → List (String × ℕ)
unmark job_id mono [] = []
unmark job_id mono ((k, t) ∷ rest) =
    if str_eq k job_id
    then if t == mono then rest else (k, t) ∷ rest
    else (k, t) ∷ unmark job_id mono rest

abbrev is_at : Option ℕ → ℕ → Bool
is_at none mono = false
is_at (some t) mono = t == mono

unfoldable pub rollback_notification :
    Option EpisodeState → String → ℕ → Before → Option EpisodeState
rollback_notification none job_id mono before = none
rollback_notification (some st) job_id mono before =
    let st' = record st { notified = unmark job_id mono st.notified } in
    if is_at st.last_notify_mono mono
    then some (record st' { last_notify_ts = before.0; last_notify_mono = before.1 })
    else some st'
