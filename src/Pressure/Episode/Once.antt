-- ===== src/Pressure/Episode/Once.antt =====
-- No job is notified twice in one episode.
use claude_memmon.Prelude.{
  ℕ, String, true, false, Option, some, List, [], ◌∷◌, ◌≡◌, ◌≢◌, refl, sym, subst, arith, All, inl,
  inr, eq_refl, Bool-cases,
}
use claude_memmon.Pressure.Episode.Steps.{step_pressured, Owned, Owned-current, episode_step-Owned}
use claude_memmon.Pressure.Episode.{
  EpisodeState, Row, Run, has_key, current, forget_calm, start, fresh_rows, floor_passed, mark,
  notify_first, pressured_step, episode_step,
}
use claude_memmon.Pressure.Episode.Ahead.{
  Note, add_note, notes, Ahead, has_key-snoc, start-Ahead, forget_calm-Ahead, episode_step-Ahead,
}

-- The only notification of a step: it was ahead, and it is not any more.
record Spent (before after : EpisodeState) (row : Row) (rest : List Row) : Type 0 where
  was_ahead : Ahead before (after.episode, row.job_id)
  is_spent : has_key row.job_id after.notified ≡ true
  alone : rest ≡ []

fresh_rows-absent :
    (m : List (String × ℕ)) (rows : List Row) {row : Row} {rest : List Row}
    → fresh_rows m rows ≡ row ∷ rest
    → has_key row.job_id m ≡ false
unfolding fresh_rows
fresh_rows-absent m [] h = absurd (ground arith)
fresh_rows-absent m (r ∷ rows) h = elim (Bool-cases (has_key r.job_id m)) [
  | inl old ↦ fresh_rows-absent m rows (rw old at h)
  | inr new ↦ ground arith
]

notify_first-Spent :
    (mono now_ts : ℕ) (fresh rest : List Row) (st : EpisodeState) (row : Row)
    → st.active ≡ true
    → ((r : Row) (rs : List Row) → fresh ≡ r ∷ rs → has_key r.job_id st.notified ≡ false)
    → (notify_first mono now_ts fresh st).1 ≡ row ∷ rest
    → Spent st (notify_first mono now_ts fresh st).0 row rest
unfolding notify_first mark Ahead
notify_first-Spent mono now_ts [] rest st row a new h = absurd (ground arith)
notify_first-Spent mono now_ts (r ∷ rs) rest st row a new h =
    let absent : has_key r.job_id st.notified ≡ false = new r rs refl in
    let added = has_key-snoc r.job_id r.job_id mono st.notified in
    let self = eq_refl r.job_id in
    elim (Bool-cases (floor_passed st.last_notify_mono mono)) [
      | inl due ↦ record {
        was_ahead = ground (arith, absent);
        is_spent = ground (arith, added, self);
        alone = ground arith;
      }
      | inr early ↦ absurd (ground arith)
    ]

start-active : (now_ts : ℕ) (st : EpisodeState) → (start now_ts st).active ≡ true
unfolding start
start-active now_ts st = ground arith

pressured_step-Spent :
    (run : Run) (st : EpisodeState) (row : Row) (rest : List Row)
    → (pressured_step run st).1 ≡ row ∷ rest
    → Spent st (pressured_step run st).0 row rest
unfolding pressured_step
pressured_step-Spent run st row rest h =
    let st1 : EpisodeState = start run.now_ts st in
    let s =
      notify_first-Spent run.mono run.now_ts (fresh_rows st1.notified run.rows) rest st1 row
        (start-active run.now_ts st) (λ r rs e. fresh_rows-absent st1.notified run.rows e) h in
    record {
      was_ahead =
          start-Ahead run.now_ts st ((pressured_step run st).0.episode, row.job_id) s.was_ahead;
      is_spent = s.is_spent;
      alone = s.alone;
    }

step_out :
    (state : Option EpisodeState) (run : Run) (row : Row) (rest : List Row)
    → (episode_step state run).1 ≡ row ∷ rest
    → run.pressured ≡ true
unfolding episode_step
step_out state run row rest h = ground arith

episode_step-Spent :
    (state : Option EpisodeState) (run : Run) (row : Row) (rest : List Row)
    → (episode_step state run).1 ≡ row ∷ rest
    → Spent (current state run.boot) (episode_step state run).0 row rest
episode_step-Spent state run row rest h =
    let st0 : EpisodeState = forget_calm run.gap (current state run.boot) in
    let e = step_pressured state run (step_out state run row rest h) in
    let h' = subst (λ (r : EpisodeState × List Row). r.1 ≡ row ∷ rest) e h in
    let s : Spent st0 (episode_step state run).0 row rest =
      subst (λ (r : EpisodeState × List Row). Spent st0 r.0 row rest) (sym e)
        (pressured_step-Spent run st0 row rest h') in
    record {
      was_ahead =
          forget_calm-Ahead run.gap (current state run.boot)
            ((episode_step state run).0.episode, row.job_id) s.was_ahead;
      is_spent = s.is_spent;
      alone = s.alone;
    }

-- No two entries are the same.
abbrev pub Distinct : List Note → Type 0
Distinct [] = Unit
Distinct (n ∷ ns) = All (λ m. m ≢ n) ns × Distinct ns

-- What is ahead of a spent notification differs from it.
spent-Distinct :
    (st : EpisodeState) (job : String)
    → has_key job st.notified ≡ true
    → (m : Note) → Ahead st m
    → m ≢ (st.episode, job)
unfolding Ahead
spent-Distinct st job spent m ahead e =
    let h = subst (λ (n : Note). Ahead st n) e ahead in unfold Ahead in ground arith

All-map : {P Q : Note → Type 0} → ((n : Note) → P n → Q n) → (ns : List Note) → All P ns → All Q ns
All-map f [] all = tt
All-map f (n ∷ ns) (h, all) = (f n h, All-map f ns all)

add_notes :
    (st st' : EpisodeState) (out : List Row) (later : List Note)
    → ((row : Row) (rest : List Row) → out ≡ row ∷ rest → Spent st st' row rest)
    → ((n : Note) → Ahead st' n → Ahead st n)
    → All (Ahead st') later
    → Distinct later
    → All (Ahead st) (add_note st'.episode out later) × Distinct (add_note st'.episode out later)
add_notes st st' [] later spent back all d = (All-map back later all, d)
add_notes st st' (row ∷ rest) later spent back all d =
    let s = spent row rest refl in
    subst
      (λ (r : List Row).
        All (Ahead st) (add_note st'.episode (row ∷ r) later)
        × Distinct (add_note st'.episode (row ∷ r) later))
      (sym s.alone)
      (
        (s.was_ahead, All-map back later all),
        (All-map (spent-Distinct st' row.job_id s.is_spent) later all, d),
      )

-- The notifications of a series of runs of one boot are ahead of the file that it starts from.
notes-Ahead :
    (state : Option EpisodeState) (boot : Option String) (runs : List Run)
    → All (λ run. run.boot ≡ boot) runs
    → All (Ahead (current state boot)) (notes state runs) × Distinct (notes state runs)
unfolding notes
notes-Ahead state boot [] all = (tt, tt)
notes-Ahead state boot (run ∷ runs) (same, all) =
    let (st', out) = episode_step state run in
    let owned = Owned-current st' boot (subst (Owned st') same (episode_step-Owned state run)) in
    let (ahead, distinct) = notes-Ahead (some st') boot runs all in
    subst
      (λ (b : Option String).
        All (Ahead (current state b)) (add_note st'.episode out (notes (some st') runs))
        × Distinct (add_note st'.episode out (notes (some st') runs)))
      same
      (add_notes (current state run.boot) st' out (notes (some st') runs)
        (λ row rest e. episode_step-Spent state run row rest e)
        (λ n h. episode_step-Ahead state run n h)
        (subst (λ (s : EpisodeState). All (Ahead s) (notes (some st') runs)) owned ahead) distinct)

-- In any series of runs of one boot, no job is notified twice in one episode: the notifications,
-- each with the number of its episode and its job, are pairwise different.
pub notes-Distinct :
    (state : Option EpisodeState) (boot : Option String) (runs : List Run)
    → All (λ run. run.boot ≡ boot) runs
    → Distinct (notes state runs)
notes-Distinct state boot runs all = (notes-Ahead state boot runs all).1
