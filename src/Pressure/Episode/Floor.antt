-- ===== src/Pressure/Episode/Floor.antt =====
-- The time between notifications, over any series of sampler runs of one boot.
use claude_memmon.Prelude.{
  ℕ, ◌+◌, ◌≤◌, String, true, false, Option, none, some, List, [], ◌∷◌, ◌≡◌, sym, refl, arith, All,
  Bool-cases, inl, inr, ◌⊎◌, subst,
}
use claude_memmon.Pressure.Episode.Steps.{step_pressured, Owned, Owned-current, episode_step-Owned}
use claude_memmon.Pressure.Episode.{
  notify_floor_s, EpisodeState, Row, Run, current, forget_calm, start, fresh_rows, floor_passed,
  notify_first, pressured_step, calm_step, episode_step, mark,
}

-- The time of a run that notifies, before the later times.
abbrev note_time : ℕ → List Row → List ℕ → List ℕ
note_time mono [] later = later
note_time mono (row ∷ rows) later = mono ∷ later

-- The clock values at which a series of runs, oldest first, notifies.
unfoldable pub notify_times : Option EpisodeState → List Run → List ℕ
notify_times state [] = []
notify_times state (run ∷ runs) =
    let (st, out) = episode_step state run in note_time run.mono out (notify_times (some st) runs)

-- Each time lies at least NOTIFY_FLOOR_S behind the one before it, the first behind `last`.
abbrev pub Spaced : Option ℕ → List ℕ → Type 0
Spaced last [] = Unit
Spaced none (t ∷ ts) = Spaced (some t) ts
Spaced (some last) (t ∷ ts) = (last + notify_floor_s ≤ t) × Spaced (some t) ts

-- What one step does to the floor: nothing, or it has passed and moves to this run.
abbrev Stepped : Option ℕ → ℕ → Option ℕ → List Row → Type 0
Stepped last mono last' out =
    (out ≡ []) × (last' ≡ last)
    ⊎ (row : Row) × (out ≡ row ∷ []) × (last' ≡ some mono) × (floor_passed last mono ≡ true)

notify_first-Stepped :
    (mono now_ts : ℕ) (rows : List Row) (st : EpisodeState)
    → let (st', out) = notify_first mono now_ts rows st in
      Stepped st.last_notify_mono mono st'.last_notify_mono out
unfolding notify_first mark
notify_first-Stepped mono now_ts [] st = inl (refl, refl)
notify_first-Stepped mono now_ts (row ∷ rows) st =
    elim (Bool-cases (floor_passed st.last_notify_mono mono)) [
      | inl due ↦ inr (row, ground arith, ground arith, due)
      | inr early ↦ inl (ground arith, ground arith)
    ]

-- The floor that a step finds may be written as any equal value.
Stepped-from :
    (last last0 : Option ℕ) (mono : ℕ) (last' : Option ℕ) (out : List Row)
    → last0 ≡ last
    → Stepped last0 mono last' out
    → Stepped last mono last' out
Stepped-from last last0 mono last' out e h = subst (λ l. Stepped l mono last' out) e h

prepared_floor :
    (run : Run) (st : EpisodeState)
    → (start run.now_ts (forget_calm run.gap st)).last_notify_mono ≡ st.last_notify_mono
unfolding start forget_calm
prepared_floor run st = ground arith

quiet_step :
    (state : Option EpisodeState) (run : Run)
    → run.pressured ≡ false
    → ((episode_step state run).1 ≡ [])
      × ((episode_step state run).0.last_notify_mono ≡ (current state run.boot).last_notify_mono)
unfolding episode_step calm_step forget_calm
quiet_step state run calm = ground arith

episode_step-Stepped :
    (state : Option EpisodeState) (run : Run)
    → let (st', out) = episode_step state run in
      Stepped (current state run.boot).last_notify_mono run.mono st'.last_notify_mono out
unfolding pressured_step
episode_step-Stepped state run =
    let st = current state run.boot in
    let st1 = start run.now_ts (forget_calm run.gap st) in
    let rows = fresh_rows st1.notified run.rows in
    elim (Bool-cases run.pressured) [
      | inl p ↦
          let e = step_pressured state run p in
          subst (λ r. Stepped st.last_notify_mono run.mono r.0.last_notify_mono r.1) (sym e)
            (Stepped-from st.last_notify_mono st1.last_notify_mono run.mono
              (notify_first run.mono run.now_ts rows st1).0.last_notify_mono
              (notify_first run.mono run.now_ts rows st1).1 (prepared_floor run st)
              (notify_first-Stepped run.mono run.now_ts rows st1))
      | inr calm ↦ inl (quiet_step state run calm)
    ]

Spaced-weaken :
    (last : Option ℕ) (t : ℕ) (ts : List ℕ)
    → floor_passed last t ≡ true
    → Spaced (some t) ts
    → Spaced last (t ∷ ts)
Spaced-weaken none t ts h s = s
Spaced-weaken (some l) t ts h s = (ground arith, s)

-- Over any series of runs of one boot, two notifications are at least 300 seconds apart on the
-- monotonic clock, and the first comes at least 300 seconds after the floor that the file holds
-- for this boot.
pub notify_times-Spaced :
    (state : Option EpisodeState) (boot : Option String) (runs : List Run)
    → All (λ run. run.boot ≡ boot) runs
    → Spaced (current state boot).last_notify_mono (notify_times state runs)
unfolding notify_times
notify_times-Spaced state boot [] all = tt
notify_times-Spaced state boot (run ∷ runs) (same, all) =
    let (st', out) = episode_step state run in
    let later : Spaced st'.last_notify_mono (notify_times (some st') runs) =
      subst (λ (s : EpisodeState). Spaced s.last_notify_mono (notify_times (some st') runs))
        (Owned-current st' boot (subst (Owned st') same (episode_step-Owned state run)))
        (notify_times-Spaced (some st') boot runs all) in
    let last = (current state boot).last_notify_mono in
    let h : Stepped last run.mono st'.last_notify_mono out =
      subst (λ b. Stepped (current state b).last_notify_mono run.mono st'.last_notify_mono out) same
        (episode_step-Stepped state run) in
    let times = notify_times (some st') runs in
    elim h [
      | inl (quiet, kept) ↦
          subst (λ o. Spaced last (note_time run.mono o times)) (sym quiet)
            (subst (λ l. Spaced l times) kept later)
      | inr (row, sent, moved, due) ↦
          subst (λ o. Spaced last (note_time run.mono o times)) (sym sent)
            (Spaced-weaken last run.mono times due (subst (λ l. Spaced l times) moved later))
    ]
