-- ===== src/Act/Watch/Lawful.antt =====
-- What holds of every signal of a graceful stop.
use claude_memmon.Prelude.{
  ℕ, ◌≤◌, ◌≡◌, true, false, some, List, [], ◌∷◌, ◌++◌, inl, inr, refl, arith, All, Bool-cases, ◌&&◌,
  ◌==◌, contains, leb,
}
use claude_memmon.Procs.Walk.{Proc, find, descendants}
use claude_memmon.Act.Plan.Spares.{Member}
use claude_memmon.Act.Engine.{Partition, Start, sigterm, Sent, World, Engine, same, later, signal}
use claude_memmon.Act.Plan.{Captured, Held, set_captured, has_captured, start_at, stop_of}
use claude_memmon.Act.Watch.{
  Stop, set_held, drop_held, free, capture_new, insert_deeper, sort_deeper, signal_all,
}

-- How a stop comes to know a process and its start: it is planned, or it was found, in a snapshot
-- taken later, below a process that the stop knew and that was there with the start it had. It is
-- not of memmon's own tree, and the start is that of the snapshot in which it was found.
pub data Known (w : World) (mine : List ℕ) (inv : List Proc) (part : Partition) (targets : List ℕ)
    (lo : ℕ) : ℕ → Start → Type 0 where
  planned :
      {pid : ℕ} {start : Start} (depth : ℕ)
      → Member inv targets mine
          (stop_of part targets)
          (record { pid = pid; start = start; depth = depth })
      → Known w mine inv part targets lo pid start
  found :
      {pid : ℕ} {start : Start} (seen parent : ℕ) (since : Start) (stop : List ℕ) (row : Proc)
      → lo ≤ seen
      → Known w mine inv part targets lo parent since
      → same (find parent (w.table seen)) since ≡ true
      → contains pid (descendants (w.table seen) stop parent) ≡ true
      → find pid (w.table seen) ≡ some row
      → (row.zombie ≡ false) × (row.visible ≡ true) × ((row.uid == w.uid) ≡ true)
      → start ≡ row.start
      → contains pid mine ≡ false
      → Known w mine inv part targets lo pid start

-- A signal of a stop: SIGTERM, to a process that the stop knows under `start`, and that was there
-- with this start in the reading just before the signal.
pub record LawfulStop (w : World) (mine : List ℕ) (inv : List Proc) (part : Partition)
    (targets : List ℕ) (lo : ℕ) (s : Sent) : Type 0 where
  pub term : s.sig ≡ sigterm
  pub spared : contains s.pid mine ≡ false
  pub start : Start
  pub known : Known w mine inv part targets lo s.pid start
  pub not_before : lo ≤ s.at
  pub unchanged : same (find s.pid (w.table s.at)) start ≡ true

-- All that was sent is lawful but for `old`, what had been sent before.
abbrev pub Since {ℓ} : (Sent → Type ℓ) → List Sent → List Sent → Type ℓ
Since P old now = (new : List Sent) × (now ≡ new ++ old) × All P new

-- Every captured and every held process satisfies `P` with the start that is kept for it.
pub record Ours (P : ℕ → Start → Type 0) (st : Stop) : Type 0 where
  pub captured_ok : All (λ c. P c.pid c.start) st.captured
  pub held_ok : All (λ h. P h.wrapper h.start) st.held

Known-spared :
    {w : World} {mine : List ℕ} {inv : List Proc} {part : Partition} {targets : List ℕ} {lo pid : ℕ}
    {start : Start}
    → Known w mine inv part targets lo pid start
    → contains pid mine ≡ false
Known-spared (planned depth m) = m.not_mine
Known-spared (found seen parent since stop row a k b c d e f free) = free

module _ (w : World) (mine : List ℕ) (inv : List Proc) (part : Partition) (targets : List ℕ)
    (lo : ℕ) (old : List Sent) where
  abbrev pub Good : Engine → Type 0
  Good e = (lo ≤ e.time) × Since (LawfulStop w mine inv part targets lo) old e.sent

  pub later-Good : (e : Engine) → Good e → Good (later e)
  later-Good e (t, s) = (omega arith, s)

  pub signal-Good :
      (pid : ℕ) (start : Start) (e : Engine)
      → Known w mine inv part targets lo pid start
      → Good e
      → Good (signal w pid start sigterm e).0
  unfolding signal
  signal-Good pid start e known (t, (new, eq, all)) =
      elim (Bool-cases (same (find pid (w.table e.time)) start && w.kill_works e.time)) [
        | inr quiet ↦ rw quiet (omega arith, (new, eq, all))
        | inl sent ↦
            let s : Sent = record { pid = pid; sig = sigterm; at = e.time } in
            rw sent (
              omega arith,
              (
                s ∷ new,
                ground arith,
                (
                  record {
                    term = refl;
                    spared = Known-spared known;
                    start = start;
                    known = known;
                    not_before = t;
                    unchanged = ground arith;
                  },
                  all,
                ),
              ),
            )
      ]

  pub signal_all-Good :
      (cs : List Captured) (e : Engine)
      → All (λ c. Known w mine inv part targets lo c.pid c.start) cs
      → Good e
      → Good (signal_all w mine cs e)
  unfolding signal_all
  signal_all-Good [] e all g = g
  signal_all-Good (c ∷ cs) e (h, all) g =
      signal_all-Good cs (signal w c.pid c.start sigterm e).0 all (signal-Good c.pid c.start e h g)

module _ (w : World) (mine : List ℕ) (P : ℕ → Start → Type 0) where
  insert_deeper-All :
      (c : Captured) (cs : List Captured)
      → P c.pid c.start
      → All (λ d. P d.pid d.start) cs
      → All (λ d. P d.pid d.start) (insert_deeper w mine c cs)
  unfolding insert_deeper
  insert_deeper-All c [] h all = (h, tt)
  insert_deeper-All c (d ∷ ds) h (g, all) = elim (Bool-cases (leb d.depth c.depth)) [
    | inl first ↦ rw first (h, (g, all))
    | inr after ↦ rw after (g, insert_deeper-All c ds h all)
  ]

  pub sort_deeper-All :
      (cs : List Captured)
      → All (λ d. P d.pid d.start) cs
      → All (λ d. P d.pid d.start) (sort_deeper w mine cs)
  unfolding sort_deeper
  sort_deeper-All [] all = tt
  sort_deeper-All (c ∷ cs) (h, all) =
      insert_deeper-All c (sort_deeper w mine cs) h (sort_deeper-All cs all)

  pub set_held-All :
      (h : Held) (hs : List Held)
      → P h.wrapper h.start
      → All (λ g. P g.wrapper g.start) hs
      → All (λ g. P g.wrapper g.start) (set_held h hs)
  unfolding set_held
  set_held-All h [] f all = (f, tt)
  set_held-All h (g ∷ gs) f (k, all) = elim (Bool-cases (g.wrapper == h.wrapper)) [
    | inl yes' ↦ rw yes' (f, all)
    | inr no' ↦ rw no' (k, set_held-All h gs f all)
  ]

  pub drop_held-All :
      (d : ℕ) (hs : List Held)
      → All (λ g. P g.wrapper g.start) hs
      → All (λ g. P g.wrapper g.start) (drop_held d hs)
  unfolding drop_held
  drop_held-All d [] all = tt
  drop_held-All d (g ∷ gs) (k, all) = elim (Bool-cases (g.wrapper == d)) [
    | inl yes' ↦ rw yes' (drop_held-All d gs all)
    | inr no' ↦ rw no' (k, drop_held-All d gs all)
  ]

  pub set_captured-All :
      (c : Captured) (cs : List Captured)
      → P c.pid c.start
      → All (λ d. P d.pid d.start) cs
      → All (λ d. P d.pid d.start) (set_captured c cs)
  unfolding set_captured
  set_captured-All c [] h all = (h, tt)
  set_captured-All c (d ∷ ds) h (g, all) = elim (Bool-cases (d.pid == c.pid)) [
    | inl yes' ↦ rw yes' (h, all)
    | inr no' ↦ rw no' (g, set_captured-All c ds h all)
  ]

  pub capture_new-All :
      (snap : List Proc) (d : ℕ) (cs : List Captured)
      → P d (start_at snap d)
      → All (λ c. P c.pid c.start) cs
      → All (λ c. P c.pid c.start) (capture_new w mine snap d cs)
  unfolding capture_new
  capture_new-All snap d cs h all = elim (Bool-cases (has_captured d cs)) [
    | inl old' ↦ rw old' all
    | inr new ↦ rw new (snoc cs all)
  ]
    where
      snoc :
          (cs : List Captured)
          → All (λ c. P c.pid c.start) cs
          → All
              (λ c. P c.pid c.start)
              (cs ++ record { pid = d; start = start_at snap d; depth = 0 } ∷ [])
      snoc [] all = (h, tt)
      snoc (c ∷ cs) (g, all) = (g, snoc cs all)
