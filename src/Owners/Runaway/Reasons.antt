-- ===== src/Owners/Runaway/Reasons.antt =====
-- What stands behind every runaway episode after a tick.
use claude_memmon.Prelude.{
  ◌+◌, ◌<◌, sym, subst, eq_iff, ℕ, ◌-◌, ◌≤◌, String, true, false, Option, none, some, List, [], ◌∷◌,
  ◌++◌, ◌≡◌, refl, arith, All, ◌⊎◌, inl, inr, Bool-cases, str_eq, keep, ◌∙◌,
}
use claude_memmon.Owners.Runaway.{
  runaway_min_samples, runaway_min_s, runaway_min_bytes, Sample, Streak, runaway_streak, Episode,
  Episodes, touch, touch_owner, is_runaway, new_episode, start_owner, update_owner, update_owners,
  is_alive, is_present, runaway_quiet_s, update_runaways,
}
use claude_memmon.Owners.Runaway.Pace.{Grown, runaway_streak-Grown}

-- The time is that of the owner's newest sample, with which a streak of growth ends.
abbrev pub Grew : (String → List Sample) → String → ℕ → Type 0
Grew hist oid t =
    (newest : Sample) × (older : List Sample) × (run : Streak) × (hist oid ≡ newest ∷ older)
    × (runaway_streak (newest ∷ older) ≡ some run)
    × (t ≡ newest.ts)

-- The episode goes on from the state before: it began where it began, its flag is kept, and so is
-- the time of its last growth, unless the owner grew until its newest sample.
abbrev pub Carried : (String → List Sample) → String × Episode → Episodes → Type 0
Carried hist e [] = ⊥
Carried hist e (o ∷ old) =
    (e.0 ≡ o.0)
      × (e.1.since_ts ≡ o.1.since_ts)
      × (e.1.since_bytes ≡ o.1.since_bytes)
      × (e.1.notified ≡ o.1.notified)
      × ((e.1.last_growth_ts ≡ o.1.last_growth_ts) ⊎ Grew hist e.0 e.1.last_growth_ts)
    ⊎ Carried hist e old

-- The episode begins with this tick: its owner's samples end in a streak that is long enough.
pub record Started (hist : String → List Sample) (e : String × Episode) : Type 0 where
  pub newest : Sample
  pub older : List Sample
  pub run : Streak
  pub sampled : hist e.0 ≡ newest ∷ older
  pub found : runaway_streak (newest ∷ older) ≡ some run
  pub intervals : runaway_min_samples ≤ run.intervals
  pub lasted : runaway_min_s ≤ newest.ts - run.since_ts
  pub large : runaway_min_bytes ≤ newest.bytes
  pub grown : Grown newest run
  pub since : e.1.since_ts ≡ run.since_ts
  pub unnotified : e.1.notified ≡ false
  pub last_growth : Grew hist e.0 e.1.last_growth_ts

abbrev pub Explained : Episodes → (String → List Sample) → String × Episode → Type 0
Explained state hist e = Carried hist e state ⊎ Started hist e

touch-same :
    (s : Sample) (run : Option Streak) (ep : Episode)
    → ((touch s run ep).since_ts ≡ ep.since_ts)
      × ((touch s run ep).since_bytes ≡ ep.since_bytes)
      × ((touch s run ep).notified ≡ ep.notified)
unfolding touch
touch-same s none ep = (refl, refl, refl)
touch-same s (some run) ep = (refl, refl, refl)

-- The time of the last growth moves only with growth.
touch-growth :
    (hist : String → List Sample) (s : Sample) (older : List Sample) (run : Option Streak)
    (k : String) (ep : Episode)
    → hist k ≡ s ∷ older
    → runaway_streak (s ∷ older) ≡ run
    → ((touch s run ep).last_growth_ts ≡ ep.last_growth_ts)
      ⊎ Grew hist k (touch s run ep).last_growth_ts
unfolding touch
touch-growth hist s older none k ep sampled found = inl refl
touch-growth hist s older (some run) k ep sampled found = inr (s, older, run, sampled, found, refl)

moved :
    (hist : String → List Sample) (k : String) (t u v : ℕ)
    → (t ≡ u) ⊎ Grew hist k t
    → (u ≡ v) ⊎ Grew hist k u
    → (t ≡ v) ⊎ Grew hist k t
moved hist k t u v (inr g) h = inr g
moved hist k t u v (inl e) (inl f) = inl (e ∙ f)
moved hist k t u v (inl e) (inr g) = inr (subst (Grew hist k) (sym e) g)

Carried-touch :
    (hist : String → List Sample) (s : Sample) (older : List Sample) (run : Option Streak)
    (k : String) (ep : Episode) (state : Episodes)
    → hist k ≡ s ∷ older
    → runaway_streak (s ∷ older) ≡ run
    → Carried hist (k, ep) state
    → Carried hist (k, touch s run ep) state
Carried-touch hist s older run k ep [] sampled found h = h
Carried-touch hist s older run k ep (o ∷ old) sampled found h =
    let (a, b, c) = touch-same s run ep in
    let d = touch-growth hist s older run k ep sampled found in
    elim h [
      | inl (key, since, bytes, flag, grown) ↦ inl (
        key,
        a ∙ since,
        b ∙ bytes,
        c ∙ flag,
        moved hist k (touch s run ep).last_growth_ts ep.last_growth_ts o.1.last_growth_ts d grown,
      )
      | inr later ↦ inr (Carried-touch hist s older run k ep old sampled found later)
    ]

module _ (state : Episodes) (hist : String → List Sample) where
  touch-Explained :
      (s : Sample) (older : List Sample) (run : Option Streak) (k : String) (ep : Episode)
      → hist k ≡ s ∷ older
      → runaway_streak (s ∷ older) ≡ run
      → Explained state hist (k, ep)
      → Explained state hist (k, touch s run ep)
  touch-Explained s older run k ep sampled found (inl h) =
      inl (Carried-touch hist s older run k ep state sampled found h)
  touch-Explained s older run k ep sampled found (inr h) =
      let (a, b, c) = touch-same s run ep in
      let d = touch-growth hist s older run k ep sampled found in
      inr (record {
        newest = h.newest;
        older = h.older;
        run = h.run;
        sampled = h.sampled;
        found = h.found;
        intervals = h.intervals;
        lasted = h.lasted;
        large = h.large;
        grown = h.grown;
        since = a ∙ h.since;
        unnotified = c ∙ h.unnotified;
        last_growth = elim d [ inl e ↦ subst (Grew hist k) (sym e) h.last_growth | inr g ↦ g ];
      })

  touch_owner-Explained :
      (oid : String) (s : Sample) (older : List Sample) (run : Option Streak) (eps : Episodes)
      → hist oid ≡ s ∷ older
      → runaway_streak (s ∷ older) ≡ run
      → All (Explained state hist) eps
      → All (Explained state hist) (touch_owner oid s run eps)
  unfolding touch_owner
  touch_owner-Explained oid s older run [] sampled found all = tt
  touch_owner-Explained oid s older run ((k, ep) ∷ eps) sampled found (h, all) =
      elim (Bool-cases (str_eq k oid)) [
        | inl own ↦
            let here : hist k ≡ s ∷ older =
              subst (λ x. hist x ≡ s ∷ older) (sym ((eq_iff k oid).0 own)) sampled in
            rw own (touch-Explained s older run k ep here found h, all)
        | inr other ↦ rw other (h, touch_owner-Explained oid s older run eps sampled found all)
      ]

  All-snoc :
      (eps : Episodes) (e : String × Episode)
      → All (Explained state hist) eps
      → Explained state hist e
      → All (Explained state hist) (eps ++ e ∷ [])
  All-snoc [] e all h = (h, tt)
  All-snoc (x ∷ eps) e (g, all) h = (g, All-snoc eps e all h)

  new_episode-Started :
      (oid : String) (s : Sample) (older : List Sample) (run : Streak)
      → hist oid ≡ s ∷ older
      → runaway_streak (s ∷ older) ≡ some run
      → is_runaway s run ≡ true
      → Started hist (oid, new_episode s run)
  unfolding is_runaway new_episode
  new_episode-Started oid s older run sampled found runaway = record {
    newest = s;
    older = older;
    run = run;
    sampled = sampled;
    found = found;
    intervals = ground arith;
    lasted = ground arith;
    large = ground arith;
    grown = (runaway_streak-Grown s older found).1;
    since = refl;
    unnotified = refl;
    last_growth = (s, older, run, sampled, found, refl);
  }

  start_owner-Explained :
      (oid : String) (s : Sample) (older : List Sample) (run : Option Streak) (eps : Episodes)
      → hist oid ≡ s ∷ older
      → runaway_streak (s ∷ older) ≡ run
      → All (Explained state hist) eps
      → All (Explained state hist) (start_owner oid s run eps)
  unfolding start_owner
  start_owner-Explained oid s older none eps sampled found all = all
  start_owner-Explained oid s older (some run) eps sampled found all =
      elim (Bool-cases (is_runaway s run)) [
        | inl runaway ↦ rw runaway (
            All-snoc eps (oid, new_episode s run) all
              (inr (new_episode-Started oid s older run sampled found runaway)))
        | inr slow ↦ rw slow all
      ]

  update_owner-Explained :
      (oid : String) (samples : List Sample) (eps : Episodes)
      → hist oid ≡ samples
      → All (Explained state hist) eps
      → All (Explained state hist) (update_owner oid samples eps)
  unfolding update_owner
  update_owner-Explained oid [] eps sampled all = all
  update_owner-Explained oid (s ∷ older) eps sampled all =
      let run = runaway_streak (s ∷ older) in
      ground (
        arith,
        touch_owner-Explained oid s older run eps sampled refl all,
        start_owner-Explained oid s older run eps sampled refl all,
      )

  update_owners-Explained :
      (present : List String) (eps : Episodes)
      → All (Explained state hist) eps
      → All (Explained state hist) (update_owners hist present eps)
  unfolding update_owners
  update_owners-Explained [] eps all = all
  update_owners-Explained (oid ∷ present) eps all =
      update_owners-Explained present (update_owner oid (hist oid) eps)
        (update_owner-Explained oid (hist oid) eps refl all)

Carried-weaken :
    (hist : String → List Sample) (o : String × Episode) (old eps : Episodes)
    → All (λ e. Carried hist e old) eps
    → All (λ e. Carried hist e (o ∷ old)) eps
Carried-weaken hist o old [] all = tt
Carried-weaken hist o old (e ∷ eps) (h, all) = (inr h, Carried-weaken hist o old eps all)

Carried-self :
    (hist : String → List Sample) (state : Episodes) → All (λ e. Carried hist e state) state
Carried-self hist [] = tt
Carried-self hist (e ∷ state) = (
  inl (refl, refl, refl, refl, inl refl),
  Carried-weaken hist e state state (Carried-self hist state),
)

All-inl :
    (state : Episodes) (hist : String → List Sample) (eps : Episodes)
    → All (λ e. Carried hist e state) eps
    → All (Explained state hist) eps
All-inl state hist [] all = tt
All-inl state hist (e ∷ eps) (h, all) = (inl h, All-inl state hist eps all)

-- The owner is present, and its last growth is less than 300 seconds ago.
abbrev pub Current : List String → ℕ → String × Episode → Type 0
Current present now e =
    (is_present e.0 present ≡ true) × (now < e.1.last_growth_ts + runaway_quiet_s)

kept :
    (P : String × Episode → Type 0) (present : List String) (now : ℕ) (eps : Episodes)
    → All P eps
    → All (λ e. P e × Current present now e) (keep (is_alive present now) eps)
kept P present now [] all = tt
kept P present now (e ∷ eps) (h, all) = elim (Bool-cases (is_alive present now e)) [
  | inl yes' ↦ rw yes' ((h, (ground arith, ground arith)), kept P present now eps all)
  | inr no' ↦ rw no' (kept P present now eps all)
]

-- After a tick every runaway episode belongs to an owner that is present, and the time of its last
-- growth is less than 300 seconds ago. It goes on from the state before, with its start and its
-- notified flag, or it starts now without the flag: then the owner's samples end in at least three
-- intervals over at least 150 seconds in which it grew by at least 1 GiB for every minute, and it
-- has at least 4 GiB. The time of the last growth is the one of the state before, or that of the
-- newest sample where a streak of growth ends with it.
pub update_runaways-Explained :
    (state : Episodes) (hist : String → List Sample) (present : List String) (now : ℕ)
    → All
        (λ e. Explained state hist e × Current present now e)
        (update_runaways state hist present now)
unfolding update_runaways
update_runaways-Explained state hist present now =
    kept (Explained state hist) present now (update_owners hist present state) (
      update_owners-Explained state hist present state
        (All-inl state hist state (Carried-self hist state)))
