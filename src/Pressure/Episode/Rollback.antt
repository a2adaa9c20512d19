-- ===== src/Pressure/Episode/Rollback.antt =====
-- What rolling back a failed send restores.
use claude_memmon.Prelude.{
  ℕ, String, Bool, true, false, Option, some, List, [], ◌∷◌, ◌++◌, ◌≡◌, ◌∙◌, ap, refl, arith,
  Bool-cases, inl, inr, eq_refl,
}
use claude_memmon.Pressure.Episode.{
  EpisodeState, Row, Run, has_key, current, forget_calm, start, fresh_rows, floor_passed, mark,
  notify_first, pressured_step, episode_step, floor_of, run_episode, unmark, rollback_notification,
}

-- A row that was kept is not among the keys.
fresh-absent :
    (notified : List (String × ℕ)) (rows : List Row) (row : Row) (rest : List Row)
    → fresh_rows notified rows ≡ row ∷ rest
    → has_key row.job_id notified ≡ false
unfolding fresh_rows
fresh-absent notified [] row rest h = absurd (ground arith)
fresh-absent notified (r ∷ rs) row rest h = elim (Bool-cases (has_key r.job_id notified)) [
  | inl old ↦ fresh-absent notified rs row rest (rw old at h)
  | inr new ↦ ground arith
]

unmark-snoc :
    (id : String) (mono : ℕ) (notified : List (String × ℕ))
    → has_key id notified ≡ false
    → unmark id mono (notified ++ (id, mono) ∷ []) ≡ notified
unfolding unmark has_key
unmark-snoc id mono [] h = rw eq_refl (ground arith)
unmark-snoc id mono ((k, t) ∷ rest) h = ground (arith, unmark-snoc id mono rest)

-- The state that a notification of `row` came from.
record Sent (st : EpisodeState) (run : Run) (row : Row) : Type 0 where
  pressured : run.pressured ≡ true
  rest : List Row
  fresh : fresh_rows (start run.now_ts st).notified run.rows ≡ row ∷ rest
  due : floor_passed (start run.now_ts st).last_notify_mono run.mono ≡ true

pressured_step-Sent :
    (st : EpisodeState) (run : Run) (row : Row)
    → run.pressured ≡ true
    → (pressured_step run st).1 ≡ row ∷ []
    → Sent st run row
unfolding pressured_step notify_first
pressured_step-Sent st run row p h = go (fresh_rows (start run.now_ts st).notified run.rows) refl h
  where
    go :
        (rows : List Row)
        → fresh_rows (start run.now_ts st).notified run.rows ≡ rows
        → (notify_first run.mono run.now_ts rows (start run.now_ts st)).1 ≡ row ∷ []
        → Sent st run row
    go [] e h' = absurd (ground arith)
    go (r ∷ rest) e h' = record {
      pressured = p;
      rest = rest;
      fresh = ground arith;
      due = ground arith;
    }

rollback-mark :
    (row : Row) (mono now_ts : ℕ) (st : EpisodeState) (ts at : Option ℕ)
    → has_key row.job_id st.notified ≡ false
    → rollback_notification (some (mark row mono now_ts st)) row.job_id mono (ts, at)
      ≡ some (record st { last_notify_ts = ts; last_notify_mono = at })
unfolding rollback_notification mark
rollback-mark row mono now_ts st ts at new =
    ground (arith, unmark-snoc row.job_id mono st.notified new)

Sent-mark :
    (st : EpisodeState) (run : Run) (row : Row)
    → Sent st run row
    → pressured_step run st ≡ (mark row run.mono run.now_ts (start run.now_ts st), row ∷ [])
unfolding pressured_step notify_first
Sent-mark st run row s = rw (s.fresh, s.due, notify_first) refl

start_floor :
    (now_ts : ℕ) (st : EpisodeState)
    → ((start now_ts st).last_notify_ts ≡ st.last_notify_ts)
      × ((start now_ts st).last_notify_mono ≡ st.last_notify_mono)
unfolding start
start_floor now_ts st = ground arith

-- What is left in the file after a notification that could not be sent: the episode as started,
-- with the floor of the file before the run.
rollback-Sent :
    (st : EpisodeState) (run : Run) (row : Row) (ts at : Option ℕ)
    → Sent st run row
    → rollback_notification (some (pressured_step run st).0) row.job_id run.mono (ts, at)
      ≡ some (record (start run.now_ts st) { last_notify_ts = ts; last_notify_mono = at })
rollback-Sent st run row ts at s = rw (Sent-mark st run row s) (
    rollback-mark row run.mono run.now_ts (start run.now_ts st) ts at
      (fresh-absent (start run.now_ts st).notified run.rows row s.rest s.fresh))

pub step-pressured :
    (state : Option EpisodeState) (run : Run) (row : Row)
    → (episode_step state run).1 ≡ row ∷ []
    → (run.pressured ≡ true)
      × (episode_step state run ≡ pressured_step run (forget_calm run.gap (current state run.boot)))
unfolding episode_step
step-pressured state run row h = elim (Bool-cases run.pressured) [
  | inl p ↦ (p, rw p refl)
  | inr calm ↦ absurd (ground arith)
]

forget_calm_floor :
    (gap : Bool) (st : EpisodeState)
    → ((forget_calm gap st).last_notify_ts ≡ st.last_notify_ts)
      × ((forget_calm gap st).last_notify_mono ≡ st.last_notify_mono)
unfolding forget_calm
forget_calm_floor gap st = ground arith

with_own_floor :
    (st : EpisodeState) (ts at : Option ℕ)
    → st.last_notify_ts ≡ ts
    → st.last_notify_mono ≡ at
    → record st { last_notify_ts = ts; last_notify_mono = at } ≡ st
with_own_floor st ts at h k = ground arith

-- The file after a failed send, for any file before it.
pub rollback_run :
    (state : Option EpisodeState) (run : Run) (row : Row) (ts at : Option ℕ)
    → (episode_step state run).1 ≡ row ∷ []
    → rollback_notification (some (episode_step state run).0) row.job_id run.mono (ts, at)
      ≡ some (record (start run.now_ts (forget_calm run.gap (current state run.boot))) {
        last_notify_ts = ts;
        last_notify_mono = at;
      })
rollback_run state run row ts at h =
    let st0 = forget_calm run.gap (current state run.boot) in
    let (p, e) = step-pressured state run row h in
    rw e (rollback-Sent st0 run row ts at (pressured_step-Sent st0 run row p (rw e at h)))

step_no_rows :
    (state : Option EpisodeState) (run : Run)
    → run.pressured ≡ true
    → episode_step state (record run { rows = [] })
      ≡ (start run.now_ts (forget_calm run.gap (current state run.boot)), [])
unfolding episode_step pressured_step notify_first fresh_rows
step_no_rows state run p = ground arith

pub floors :
    (st : EpisodeState) (run : Run)
    → current (some st) run.boot ≡ st
    → let st0 = start run.now_ts (forget_calm run.gap (current (some st) run.boot)) in
      (st0.last_notify_ts ≡ st.last_notify_ts) × (st0.last_notify_mono ≡ st.last_notify_mono)
floors st run same =
    let st0 = forget_calm run.gap (current (some st) run.boot) in
    let (a, b) = start_floor run.now_ts st0 in
    let (c, d) = forget_calm_floor run.gap (current (some st) run.boot) in
    (a ∙ (c ∙ ap (λ s. s.last_notify_ts) same), b ∙ (d ∙ ap (λ s. s.last_notify_mono) same))

-- Rolling back a notification whose send failed leaves the file as if the run had had nothing to
-- notify: the job is fresh again and the floor is the one before. The file was of this boot.
pub rollback_restores :
    (st : EpisodeState) (run : Run) (row : Row)
    → current (some st) run.boot ≡ st
    → (run_episode (some st) run).1 ≡ row ∷ []
    → let (st', out, before) = run_episode (some st) run in
      rollback_notification (some st') row.job_id run.mono before
      ≡ some (episode_step (some st) (record run { rows = [] })).0
unfolding run_episode
rollback_restores st run row same h =
    let st0 = forget_calm run.gap (current (some st) run.boot) in
    let p = (step-pressured (some st) run row h).0 in
    let (ts, at) = floors st run same in
    rw (step_no_rows (some st) run p) (
      unfold floor_of in
      rollback_run (some st) run row st.last_notify_ts st.last_notify_mono h
      ∙ ap some (with_own_floor (start run.now_ts st0) st.last_notify_ts st.last_notify_mono ts at))
