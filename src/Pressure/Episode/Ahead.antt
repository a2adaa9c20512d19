-- ===== src/Pressure/Episode/Ahead.antt =====
-- What an episode may still notify: what lies ahead after a step lay ahead before it.
use claude_memmon.Prelude.{
  ℕ, ◌<◌, String, Bool, true, false, Option, none, some, List, [], ◌∷◌, ◌++◌, ◌≡◌, ◌∙◌, subst,
  arith, ◌⊎◌, inl, inr, ◌||◌, str_eq, Bool-cases,
}
use claude_memmon.Pressure.Episode.Steps.{step_pressured, step_unknown, step_calm, step_idle}
use claude_memmon.Pressure.Episode.{
  EpisodeState, Row, Run, has_key, current, forget_calm, start, fresh_rows, mark, notify_first,
  pressured_step, calm_step, episode_step,
}

-- A notification: its episode's number and its job.
abbrev pub Note : Type 0
Note = ℕ × String

abbrev pub add_note : ℕ → List Row → List Note → List Note
add_note episode [] later = later
add_note episode (row ∷ rows) later = (episode, row.job_id) ∷ add_note episode rows later

-- The notifications of a series of runs, oldest first.
unfoldable pub notes : Option EpisodeState → List Run → List Note
notes state [] = []
notes state (run ∷ runs) =
    let (st, out) = episode_step state run in add_note st.episode out (notes (some st) runs)

-- What may still be notified from `st` on: a later episode, or a job that is not yet notified in
-- the running one.
unfoldable pub Ahead : EpisodeState → Note → Type 0
Ahead st n =
    (st.episode < n.0) ⊎ (n.0 ≡ st.episode) × (st.active ≡ true) × (has_key n.1 st.notified ≡ false)

pub has_key-snoc :
    (j k : String) (t : ℕ) (m : List (String × ℕ))
    → has_key j (m ++ (k, t) ∷ []) ≡ (has_key j m || str_eq k j)
unfolding has_key
has_key-snoc j k t [] = ground arith
has_key-snoc j k t ((i, s) ∷ m) = ground (arith, has_key-snoc j k t m)

pub start-Ahead :
    (now_ts : ℕ) (st : EpisodeState) (n : Note) → Ahead (start now_ts st) n → Ahead st n
unfolding Ahead start
start-Ahead now_ts st n h = ground arith

pub forget_calm-Ahead :
    (gap : Bool) (st : EpisodeState) (n : Note) → Ahead (forget_calm gap st) n → Ahead st n
unfolding Ahead forget_calm
forget_calm-Ahead gap st n h = ground arith

notify_first-Ahead :
    (mono now_ts : ℕ) (rows : List Row) (st : EpisodeState) (n : Note)
    → Ahead (notify_first mono now_ts rows st).0 n
    → Ahead st n
unfolding Ahead notify_first mark
notify_first-Ahead mono now_ts [] st n h = h
notify_first-Ahead mono now_ts (row ∷ rows) st n h =
    ground (arith, has_key-snoc n.1 row.job_id mono st.notified)

calm_step-Ahead :
    (mono : ℕ) (st : EpisodeState) (n : Note)
    → st.active ≡ true
    → Ahead (calm_step mono st) n
    → Ahead st n
unfolding Ahead calm_step
calm_step-Ahead mono st n a h = ground arith

pressured_step-Ahead :
    (run : Run) (st : EpisodeState) (n : Note) → Ahead (pressured_step run st).0 n → Ahead st n
unfolding pressured_step
pressured_step-Ahead run st n h =
    let st1 = start run.now_ts st in
    start-Ahead run.now_ts st n
      (notify_first-Ahead run.mono run.now_ts (fresh_rows st1.notified run.rows) st1 n h)

unknown-Ahead :
    (st : EpisodeState) (n : Note) → Ahead (record st { last_calm_mono = none }) n → Ahead st n
unfolding Ahead
unknown-Ahead st n h = h

forget_calm-active : (gap : Bool) (st : EpisodeState) → (forget_calm gap st).active ≡ st.active
unfolding forget_calm
forget_calm-active gap st = ground arith

-- What is ahead after a step was ahead before it.
pub episode_step-Ahead :
    (state : Option EpisodeState) (run : Run) (n : Note)
    → Ahead (episode_step state run).0 n
    → Ahead (current state run.boot) n
episode_step-Ahead state run n h =
    let st : EpisodeState = current state run.boot in
    let st0 : EpisodeState = forget_calm run.gap st in
    let after : (r : EpisodeState × List Row) → episode_step state run ≡ r → Ahead r.0 n =
      λ r e. subst (λ (x : EpisodeState × List Row). Ahead x.0 n) e h in
    forget_calm-Ahead run.gap st n (elim (Bool-cases run.pressured) [
      | inl p ↦
          pressured_step-Ahead run st0 n
            (after (pressured_step run st0) (step_pressured state run p))
      | inr calm ↦ elim (Bool-cases run.unknown) [
        | inl u ↦
            unknown-Ahead st0 n
              (after (record st0 { last_calm_mono = none }, []) (step_unknown state run calm u))
        | inr known ↦ elim (Bool-cases st.active) [
          | inl a ↦
              calm_step-Ahead run.mono st0 n (forget_calm-active run.gap st ∙ a)
                (after (calm_step run.mono st0, []) (step_calm state run calm known a))
          | inr idle ↦ after (st0, []) (step_idle state run calm known idle)
        ]
      ]
    ])
