-- ===== src/Pressure/Episode/Reboot.antt =====
-- What a failed send leaves behind when the file was of an earlier boot.
use claude_memmon.Prelude.{
  All, Option, String, ◌≤◌, subst, ℕ, ◌+◌, false, some, List, [], ◌∷◌, ◌≡◌, arith,
}
use claude_memmon.Telemetry.Reading.{same_boot}
use claude_memmon.Pressure.Episode.{
  notify_floor_s, EpisodeState, Row, Run, new_episode_state, current, forget_calm, start,
  episode_step, floor_of, run_episode, rollback_notification,
}
use claude_memmon.Pressure.Episode.Rollback.{rollback_run}
use claude_memmon.Pressure.Episode.Floor.{notify_times, Spaced, notify_times-Spaced}
use claude_memmon.Pressure.Episode.Steps.{current_self}

-- The times all lie the floor behind any time that the floor starts from.
Spaced-All :
    (old last : ℕ) (ts : List ℕ)
    → old ≤ last
    → Spaced (some last) ts
    → All (λ t. old + notify_floor_s ≤ t) ts
Spaced-All old last [] h s = tt
Spaced-All old last (t ∷ ts) h (first, later) =
    (omega arith, Spaced-All old t ts (omega arith) later)

-- From a file of the boot that holds a floor, no notification comes before the floor has passed.
held_back :
    (st : EpisodeState) (boot : Option String) (runs : List Run) (old : ℕ)
    → st.last_notify_mono ≡ some old
    → current (some st) boot ≡ st
    → All (λ run. run.boot ≡ boot) runs
    → All (λ t. old + notify_floor_s ≤ t) (notify_times (some st) runs)
held_back st boot runs old floor same all =
    Spaced-All old old (notify_times (some st) runs) (omega arith) (
      subst (λ l. Spaced l (notify_times (some st) runs)) floor
        (subst (λ (s : EpisodeState). Spaced s.last_notify_mono (notify_times (some st) runs)) same
          (notify_times-Spaced (some st) boot runs all)))

rollback_floor :
    (st : EpisodeState) (run : Run) (row : Row)
    → (episode_step (some st) run).1 ≡ row ∷ []
    → rollback_notification
        (some (episode_step (some st) run).0)
        row.job_id
        run.mono
        (floor_of (some st))
      ≡ some (record (start run.now_ts (forget_calm run.gap (current (some st) run.boot))) {
        last_notify_ts = st.last_notify_ts;
        last_notify_mono = st.last_notify_mono;
      })
unfolding floor_of
rollback_floor st run row h = rollback_run (some st) run row st.last_notify_ts st.last_notify_mono h

-- The first state of a new boot.
started :
    (st : EpisodeState) (run : Run)
    → same_boot st.boot run.boot ≡ false
    → let st' = start run.now_ts (forget_calm run.gap (current (some st) run.boot)) in
      (st'.v ≡ 1) × (st'.boot ≡ run.boot)
unfolding start forget_calm current new_episode_state
started st run other = ground arith

-- After a reboot the floor that is rolled back to is the one of the boot before: the file of
-- another boot holds a floor at `old`, the first run of this boot notifies, and the send fails.
-- Then in any series of runs of this boot that follows, every notification comes at a clock value
-- of at least 300 seconds past `old`, although nothing was notified in this boot before.
pub rollback_stale_floor :
    (st : EpisodeState) (run : Run) (row : Row) (old : ℕ) (runs : List Run)
    → same_boot st.boot run.boot ≡ false
    → st.last_notify_mono ≡ some old
    → (run_episode (some st) run).1 ≡ row ∷ []
    → All (λ next. next.boot ≡ run.boot) runs
    → let (st', out, before) = run_episode (some st) run in
      All
        (λ t. old + notify_floor_s ≤ t)
        (notify_times (rollback_notification (some st') row.job_id run.mono before) runs)
unfolding run_episode
rollback_stale_floor st run row old runs other floor h same =
    let back : EpisodeState =
      record (start run.now_ts (forget_calm run.gap (current (some st) run.boot))) {
        last_notify_ts = st.last_notify_ts;
        last_notify_mono = st.last_notify_mono;
      } in
    rw (rollback_floor st run row h) (
      held_back back run.boot runs old floor
        (current_self back run.boot (started st run other).0 (started st run other).1) same)
