-- ===== src/Telemetry/Recovery/Window.antt =====
-- What an open recovery window says of the samples that were applied, in whatever order they came.
use claude_memmon.Prelude.{
  ℕ, ◌+◌, ◌≤◌, ◌<◌, max, Bool, true, false, Option, none, some, List, [], ◌∷◌, ◌≡◌, All, arith, leb,
  ◌⊎◌, inl, inr, Bool-cases,
}
use claude_memmon.Telemetry.Units.{good_gap_s}
use claude_memmon.Telemetry.Cache.{State}
use claude_memmon.Telemetry.Recovery.{latest, restarts, is_late, apply_hysteresis, recovery}

pub record Sample : Type 0 where
  pub good : Bool
  pub mono : ℕ

-- The state after a series of samples, in the order in which they were applied.
unfoldable pub observe : State → List Sample → State
observe s [] = s
observe s (x ∷ xs) = observe (apply_hysteresis s x.good x.mono) xs

-- `t` is not after the last bad sample.
abbrev Covered : ℕ → Option ℕ → Type 0
Covered t none = ⊥
Covered t (some bad) = t ≤ bad

apply_hysteresis-Covered :
    (t : ℕ) (s : State) (x : Sample)
    → Covered t s.last_bad_mono
    → Covered t (apply_hysteresis s x.good x.mono).last_bad_mono
unfolding apply_hysteresis
apply_hysteresis-Covered t s x h = ground arith

observe-Covered :
    (t : ℕ) (s : State) (xs : List Sample)
    → Covered t s.last_bad_mono
    → Covered t (observe s xs).last_bad_mono
unfolding observe
observe-Covered t s [] h = h
observe-Covered t s (x ∷ xs) h =
    observe-Covered t (apply_hysteresis s x.good x.mono) xs (apply_hysteresis-Covered t s x h)

bad-Covered :
    (s : State) (x : Sample)
    → x.good ≡ false
    → Covered x.mono (apply_hysteresis s x.good x.mono).last_bad_mono
unfolding apply_hysteresis
bad-Covered s x h = ground arith

open_after :
    (s : State) (t now window : ℕ)
    → (recovery s now window).is_open ≡ true
    → Covered t s.last_bad_mono
    → t + window < now
unfolding recovery
open_after s t now window h c = ground arith

-- While the window is open, every bad sample that was ever applied is older than the window: no
-- order of arrival, late samples included, can open it within `window` of a bad sample.
pub recovery_quiet :
    (s : State) (xs : List Sample) (now window : ℕ)
    → (recovery (observe s xs) now window).is_open ≡ true
    → All (λ x. (x.good ≡ true) ⊎ (x.mono + window < now)) xs
unfolding observe
recovery_quiet s [] now window h = tt
recovery_quiet s (x ∷ xs) now window h =
    let next : State = apply_hysteresis s x.good x.mono in
    (
      elim (Bool-cases x.good) [
        | inl good ↦ inl good
        | inr bad ↦ inr (
            open_after (observe next xs) x.mono now window h
              (observe-Covered x.mono next xs (bad-Covered s x bad)))
      ],
      recovery_quiet next xs now window h,
    )

-- Good samples, each at most GOOD_GAP_S after the one before it.
abbrev pub Steady : ℕ → List Sample → Type 0
Steady t [] = Unit
Steady t (x ∷ xs) = (x.good ≡ true) × (t ≤ x.mono) × (x.mono ≤ t + good_gap_s) × Steady x.mono xs

-- The window started at `start`, and nothing bad came since; the last good sample is not older
-- than `t`.
record Running (s : State) (start t : ℕ) : Type 0 where
  started : s.recovery_start_mono ≡ some start
  after_bad : is_late s.last_bad_mono start ≡ false
  good_at : ℕ
  last_good : s.last_good_mono ≡ some good_at
  recent : t ≤ good_at
  since : start ≤ t

apply_hysteresis-Running :
    (s : State) (start t : ℕ) (x : Sample)
    → Running s start t
    → x.good ≡ true
    → t ≤ x.mono
    → x.mono ≤ t + good_gap_s
    → Running (apply_hysteresis s x.good x.mono) start x.mono
unfolding apply_hysteresis restarts
apply_hysteresis-Running s start t x r good later near = record {
  started = ground arith;
  after_bad = ground arith;
  good_at = max r.good_at x.mono;
  last_good = ground arith;
  recent = omega arith;
  since = omega (arith, r.since);
}

observe-Running :
    (s : State) (start t : ℕ) (xs : List Sample)
    → Running s start t
    → Steady t xs
    → (u : ℕ) × Running (observe s xs) start u
unfolding observe
observe-Running s start t [] r steady = (t, r)
observe-Running s start t (x ∷ xs) r (good, later, near, rest) =
    observe-Running (apply_hysteresis s x.good x.mono) start x.mono xs
      (apply_hysteresis-Running s start t x r good later near) rest

first-Running :
    (s : State) (x : Sample)
    → s.recovery_start_mono ≡ none
    → is_late s.last_bad_mono x.mono ≡ false
    → x.good ≡ true
    → Running (apply_hysteresis s x.good x.mono) x.mono x.mono
unfolding apply_hysteresis restarts
first-Running s x closed fresh good = record {
  started = ground arith;
  after_bad = ground arith;
  good_at = latest s.last_good_mono x.mono;
  last_good = ground arith;
  recent = ground arith;
  since = omega arith;
}

open-Running :
    (s : State) (start t now window : ℕ)
    → Running s start t
    → (recovery s now window).is_open ≡ leb (window + start) now
unfolding recovery
open-Running s start t now window r = ground arith

-- From a closed window, good samples at most GOOD_GAP_S apart, the first later than the last bad
-- one, open it exactly once `window` has passed since the first.
pub recovery_opens :
    (s : State) (x : Sample) (xs : List Sample) (now window : ℕ)
    → s.recovery_start_mono ≡ none
    → is_late s.last_bad_mono x.mono ≡ false
    → x.good ≡ true
    → Steady x.mono xs
    → (recovery (observe s (x ∷ xs)) now window).is_open ≡ leb (window + x.mono) now
unfolding observe
recovery_opens s x xs now window closed fresh good steady =
    let (u, r) =
      observe-Running (apply_hysteresis s x.good x.mono) x.mono x.mono xs
        (first-Running s x closed fresh good) steady in
    open-Running (observe (apply_hysteresis s x.good x.mono) xs) x.mono u now window r
