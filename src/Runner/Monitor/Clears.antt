-- ===== src/Runner/Monitor/Clears.antt =====
-- How an intervention ends: the mark `clear_since` over the ticks of a wrapper.
use claude_memmon.Prelude.{
  ℕ, ◌+◌, ◌≤◌, ◌<◌, ◌==◌, false, Option, none, some, List, [], ◌∷◌, ◌≡◌, refl, arith, ◌⊎◌, inl, inr,
  Bool-cases,
}
use claude_memmon.Runner.Jobs.{running, intervention_needed}
use claude_memmon.Runner.Monitor.{
  pressure_ticks, failed_ticks, clear_from, clear_s, is_growth, advance, cause_of,
  intervention_cause, Monitored, note_footprint, clear_step, intervene, TickInput, tick,
}
use claude_memmon.Runner.Monitor.Streaks.{ticks}

-- A tick of a run that needs attention, which finds none of the three causes.
pub record Causeless (io : TickInput) (r : Monitored) : Type 0 where
  pub needed : r.state ≡ intervention_needed
  pub calm : (tick io r).counts.bad < pressure_ticks
  pub small : is_growth io.footprint io.committed io.reservation ≡ false
  pub answered : (tick io r).counts.failed < failed_ticks

-- The newest ticks, back to one at `since`, all found no cause.
pub data Stretch (r : Monitored) (since : ℕ) : List TickInput → Type 0 where
  begin :
      (io : TickInput) (ios : List TickInput)
      → Causeless io (ticks ios r)
      → io.now ≡ since
      → Stretch r since (io ∷ ios)
  go_on :
      (io : TickInput) (ios : List TickInput)
      → Causeless io (ticks ios r)
      → Stretch r since ios
      → Stretch r since (io ∷ ios)

still_needed :
    (io : TickInput) (r : Monitored)
    → (tick io r).state ≡ intervention_needed
    → ((tick io r).counts.clear_since ≡ none)
      ⊎ Causeless io r
        × ((tick io r).counts.clear_since ≡ some (clear_from r.counts.clear_since io.now))
unfolding tick intervene clear_step note_footprint intervention_cause advance cause_of
still_needed io r after = ground arith

ended :
    (io : TickInput) (r : Monitored)
    → r.state ≡ intervention_needed
    → (tick io r).state ≡ running
    → Causeless io r
      × (clear_from r.counts.clear_since io.now + clear_s ≤ io.now)
      × ((tick io r).intervention ≡ none)
unfolding tick intervene clear_step note_footprint intervention_cause advance cause_of
ended io r before after = (
  record { needed = before; calm = ground arith; small = ground arith; answered = ground arith },
  ground arith,
  ground arith,
)

-- What a mark stands for.
abbrev Marked : Monitored → List TickInput → Option ℕ → Type 0
Marked r ios none = Unit
Marked r ios (some since) = Stretch r since ios

extend :
    (io : TickInput) (ios : List TickInput) (r : Monitored) (mark : Option ℕ)
    → Causeless io (ticks ios r)
    → Marked r ios mark
    → Stretch r (clear_from mark io.now) (io ∷ ios)
extend io ios r none calm m = Stretch.begin io ios calm refl
extend io ios r (some t) calm m = elim (Bool-cases (t == 0)) [
  | inl zero' ↦ rw zero' (Stretch.begin io ios calm refl)
  | inr set' ↦ rw set' (Stretch.go_on io ios calm m)
]

mark-Marked :
    (ios : List TickInput) (r : Monitored)
    → r.state ≡ running
    → (ticks ios r).state ≡ intervention_needed
    → Marked r ios (ticks ios r).counts.clear_since
unfolding ticks
mark-Marked [] r start h = absurd (ground arith)
mark-Marked (io ∷ ios) r start h = elim (still_needed io (ticks ios r) h) [
  | inl unset ↦ rw unset tt
  | inr (calm, mark) ↦
      rw mark (
        extend io ios r (ticks ios r).counts.clear_since calm (mark-Marked ios r start calm.needed))
]

-- An intervention ends only behind a stretch of ticks, this one included, that spans at least 30
-- seconds and in which no tick finds a cause: not the streak of pressure, not the growth over the
-- reservation, not the streak of failed telemetry. A tick that finds one in between starts the
-- stretch anew. The run is then no longer marked.
pub tick_clears :
    (io : TickInput) (ios : List TickInput) (r : Monitored)
    → r.state ≡ running
    → (ticks ios r).state ≡ intervention_needed
    → (tick io (ticks ios r)).state ≡ running
    → (since : ℕ) × Stretch r since (io ∷ ios)
      × (since + clear_s ≤ io.now)
      × ((tick io (ticks ios r)).intervention ≡ none)
tick_clears io ios r start before after =
    let mark = (ticks ios r).counts.clear_since in
    let (calm, waited, unmarked) = ended io (ticks ios r) before after in
    (
      clear_from mark io.now,
      extend io ios r mark calm (mark-Marked ios r start before),
      waited,
      unmarked,
    )
