-- ===== src/Owners/Runaway.antt =====
-- memmon_owners.py, `update_history` for one owner, `runaway_streak` and `update_runaways`. Samples
-- are kept newest first, the end of the source's list. Times are nanoseconds of the wall clock.
pub mod Pace
pub mod Reasons
use claude_memmon.Prelude.{
  ℕ, suc, ◌+◌, ◌-◌, ◌*◌, String, Bool, true, false, Option, none, some, List, [], ◌∷◌, ◌++◌, ◌&&◌,
  ◌||◌, not, leb, ltb, ◌==◌, str_eq, if◌then◌else◌, take, keep,
}
use claude_memmon.Telemetry.Units.{seconds}

abbrev pub history_max_samples : ℕ
history_max_samples = 60

abbrev pub max_gap_s : ℕ
max_gap_s = seconds 180

abbrev pub runaway_rate : ℕ
runaway_rate = 1073741824

abbrev pub runaway_min_bytes : ℕ
runaway_min_bytes = 4294967296

abbrev pub runaway_min_samples : ℕ
runaway_min_samples = 3

abbrev pub runaway_min_s : ℕ
runaway_min_s = seconds 150

abbrev pub runaway_quiet_s : ℕ
runaway_quiet_s = seconds 300

abbrev pub unattributed : String
unattributed = "unattributed"

-- `[ts, footprint]`
pub record Sample : Type 0 where
  pub ts : ℕ
  pub bytes : ℕ

-- The samples of one owner after a tick. An owner that was not measured gets none.
unfoldable pub add_sample : ℕ → Option ℕ → List Sample → List Sample
add_sample ts none samples = samples
add_sample ts (some fp) samples =
    take history_max_samples (record { ts = ts; bytes = fp } ∷ samples)

-- Growth of RUNAWAY_RATE a minute between two samples, without a gap.
unfoldable pub is_growing : Sample → Sample → Bool
is_growing older newer =
    let dt = newer.ts - older.ts in
    (ltb 0 dt && leb dt max_gap_s)
    && not (ltb ((newer.bytes - older.bytes) * seconds 60) (runaway_rate * dt))

-- Where the run of growth began, and its number of intervals.
pub record Streak : Type 0 where
  pub since_ts : ℕ
  pub since_bytes : ℕ
  pub intervals : ℕ

-- The loop, from `s` towards the older samples.
unfoldable pub streak_from : Sample → List Sample → Streak
streak_from s [] = record { since_ts = s.ts; since_bytes = s.bytes; intervals = 0 }
streak_from s (older ∷ rest) =
    let run = streak_from older rest in
    if is_growing older s
    then record run { intervals = run.intervals + 1 }
    else record { since_ts = s.ts; since_bytes = s.bytes; intervals = 0 }

unfoldable pub runaway_streak : List Sample → Option Streak
runaway_streak [] = none
runaway_streak (s ∷ rest) =
    let run = streak_from s rest in if run.intervals == 0 then none else some run

pub record Episode : Type 0 where
  pub since_ts : ℕ
  pub since_bytes : ℕ
  pub last_growth_ts : ℕ
  pub bytes : ℕ
  pub now_ts : ℕ
  pub notified : Bool

-- The `owners` of the state, in insertion order.
abbrev pub Episodes : Type 0
Episodes = List (String × Episode)

unfoldable pub has_episode : String → Episodes → Bool
has_episode oid [] = false
has_episode oid ((k, ep) ∷ eps) = str_eq k oid || has_episode oid eps

-- A running episode after its owner's newest sample.
unfoldable pub touch : Sample → Option Streak → Episode → Episode
touch s none ep = record ep { bytes = s.bytes; now_ts = s.ts }
touch s (some run) ep = record ep { last_growth_ts = s.ts; bytes = s.bytes; now_ts = s.ts }

unfoldable pub touch_owner : String → Sample → Option Streak → Episodes → Episodes
touch_owner oid s run [] = []
touch_owner oid s run ((k, ep) ∷ eps) =
    let rest = touch_owner oid s run eps in
    if str_eq k oid then (k, touch s run ep) ∷ eps else (k, ep) ∷ rest

-- Long enough, and large enough now.
unfoldable pub is_runaway : Sample → Streak → Bool
is_runaway s run =
    (leb runaway_min_samples run.intervals && leb runaway_min_s (s.ts - run.since_ts))
    && leb runaway_min_bytes s.bytes

unfoldable pub new_episode : Sample → Streak → Episode
new_episode s run = record {
  since_ts = run.since_ts;
  since_bytes = run.since_bytes;
  last_growth_ts = s.ts;
  bytes = s.bytes;
  now_ts = s.ts;
  notified = false;
}

unfoldable pub start_owner : String → Sample → Option Streak → Episodes → Episodes
start_owner oid s none eps = eps
start_owner oid s (some run) eps =
    if is_runaway s run then eps ++ (oid, new_episode s run) ∷ [] else eps

-- The body of the loop over the owners that are present.
unfoldable pub update_owner : String → List Sample → Episodes → Episodes
update_owner oid [] eps = eps
update_owner oid (s ∷ older) eps =
    let run = runaway_streak (s ∷ older) in
    if str_eq oid unattributed
    then eps
    else if has_episode oid eps
    then touch_owner oid s run eps
    else start_owner oid s run eps

unfoldable pub update_owners : (String → List Sample) → List String → Episodes → Episodes
update_owners hist [] eps = eps
update_owners hist (oid ∷ present) eps =
    update_owners hist present (update_owner oid (hist oid) eps)

unfoldable pub is_present : String → List String → Bool
is_present oid [] = false
is_present oid (k ∷ present) = str_eq k oid || is_present oid present

-- `oid in present and now - ep["last_growth_ts"] < RUNAWAY_QUIET_S`
abbrev pub is_alive : List String → ℕ → String × Episode → Bool
is_alive present now e = is_present e.0 present && ltb now (e.1.last_growth_ts + runaway_quiet_s)

unfoldable pub update_runaways : Episodes → (String → List Sample) → List String → ℕ → Episodes
update_runaways state hist present now =
    keep (is_alive present now) (update_owners hist present state)
