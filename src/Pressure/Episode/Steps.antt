-- ===== src/Pressure/Episode/Steps.antt =====
-- The branches of one step of the episode, and the fields that each part of it leaves alone.
use claude_memmon.Prelude.{
  ℕ, String, Bool, true, false, Option, none, some, List, [], ◌∷◌, ◌≡◌, refl, arith, eq_refl,
}
use claude_memmon.Telemetry.Reading.{same_boot}
use claude_memmon.Pressure.Episode.{
  EpisodeState, Row, Run, new_episode_state, current, forget_calm, start, mark, notify_first,
  pressured_step, calm_step, episode_step, fresh_rows,
}

module _ (state : Option EpisodeState) (run : Run) where
  pub step_pressured :
      run.pressured ≡ true
      → episode_step state run ≡ pressured_step run (forget_calm run.gap (current state run.boot))
  unfolding episode_step
  step_pressured p = ground arith

  pub step_unknown :
      run.pressured ≡ false
      → run.unknown ≡ true
      → episode_step state run
        ≡ (record (forget_calm run.gap (current state run.boot)) { last_calm_mono = none }, [])
  unfolding episode_step
  step_unknown p u = ground arith

  pub step_calm :
      run.pressured ≡ false
      → run.unknown ≡ false
      → (current state run.boot).active ≡ true
      → episode_step state run
        ≡ (calm_step run.mono (forget_calm run.gap (current state run.boot)), [])
  unfolding episode_step forget_calm
  step_calm p u a = ground arith

  pub step_idle :
      run.pressured ≡ false
      → run.unknown ≡ false
      → (current state run.boot).active ≡ false
      → episode_step state run ≡ (forget_calm run.gap (current state run.boot), [])
  unfolding episode_step forget_calm
  step_idle p u a = ground arith

pub same_boot_refl : (b : Option String) → same_boot b b ≡ true
same_boot_refl none = refl
same_boot_refl (some b) = eq_refl b

-- A file of the boot is taken as it is.
pub current_self :
    (st : EpisodeState) (boot : Option String)
    → st.v ≡ 1
    → st.boot ≡ boot
    → current (some st) boot ≡ st
unfolding current
current_self st boot v b = rw (v, b, same_boot_refl boot) refl

-- The fields that identify the file.
pub record Owned (st : EpisodeState) (boot : Option String) : Type 0 where
  pub version : st.v ≡ 1
  pub of_boot : same_boot st.boot boot ≡ true

current-Owned :
    (state : Option EpisodeState) (boot : Option String) → Owned (current state boot) boot
unfolding current new_episode_state
current-Owned none boot = record { version = refl; of_boot = same_boot_refl boot }
current-Owned (some st) boot = ground (arith, same_boot_refl boot)

forget_calm-Owned :
    (gap : Bool) (st : EpisodeState) (boot : Option String)
    → Owned st boot
    → Owned (forget_calm gap st) boot
unfolding forget_calm
forget_calm-Owned gap st boot o = ground arith

start-Owned :
    (now_ts : ℕ) (st : EpisodeState) (boot : Option String)
    → Owned st boot
    → Owned (start now_ts st) boot
unfolding start
start-Owned now_ts st boot o = ground arith

notify_first-Owned :
    (mono now_ts : ℕ) (rows : List Row) (st : EpisodeState) (boot : Option String)
    → Owned st boot
    → Owned (notify_first mono now_ts rows st).0 boot
unfolding notify_first mark
notify_first-Owned mono now_ts [] st boot o = o
notify_first-Owned mono now_ts (row ∷ rows) st boot o = ground arith

calm_step-Owned :
    (mono : ℕ) (st : EpisodeState) (boot : Option String)
    → Owned st boot
    → Owned (calm_step mono st) boot
unfolding calm_step
calm_step-Owned mono st boot o = ground arith

-- After a step the file is of the run's boot.
pub episode_step-Owned :
    (state : Option EpisodeState) (run : Run) → Owned (episode_step state run).0 run.boot
unfolding episode_step pressured_step
episode_step-Owned state run =
    let st0 = forget_calm run.gap (current state run.boot) in
    let o =
      forget_calm-Owned run.gap (current state run.boot) run.boot (current-Owned state run.boot) in
    ground (
      arith,
      calm_step-Owned run.mono st0 run.boot o,
      notify_first-Owned run.mono run.now_ts (fresh_rows (start run.now_ts st0).notified run.rows)
          (start run.now_ts st0) run.boot (start-Owned run.now_ts st0 run.boot o),
    )

-- A file that is of the boot is what the next run of that boot starts from.
pub Owned-current :
    (st : EpisodeState) (boot : Option String) → Owned st boot → current (some st) boot ≡ st
unfolding current
Owned-current st boot o = rw (o.version, o.of_boot) refl
