-- ===== src/Act/Plan/Spares.antt =====
-- What a plan spares.
use claude_memmon.Prelude.{
  ℕ, ◌≡◌, true, false, some, List, [], ◌∷◌, ◌⊎◌, inl, inr, refl, arith, All, Bool-cases,
  Option-cases, not, ◌==◌, contains, keep,
}
use claude_memmon.Procs.Walk.{Proc, find, descendants}
use claude_memmon.Procs.Walk.Reach.{Below, descendants-Below}
use claude_memmon.Procs.Climb.{depth}
use claude_memmon.Act.Engine.{Lease, Partition}
use claude_memmon.Act.Plan.{
  Captured, held_of, roots_of, stop_of, set_captured, takes, capture, capture_all, is_held, plan,
}

-- A captured process: alive and visible in the table, outside memmon's own tree, with the start
-- that was read; a target, or below one without passing another owner's root.
pub record Member (procs : List Proc) (targets mine stop : List ℕ) (c : Captured) : Type 0 where
  pub row : Proc
  pub found : find c.pid procs ≡ some row
  pub start_eq : c.start ≡ row.start
  pub alive : row.zombie ≡ false
  pub visible : row.visible ≡ true
  pub not_mine : contains c.pid mine ≡ false
  pub top : ℕ
  pub chosen : contains top targets ≡ true
  pub below : (c.pid ≡ top) ⊎ Below procs stop top c.pid

module _ (procs : List Proc) (targets mine stop : List ℕ) where
  new-Member :
      (top pid : ℕ) (p : Proc) (d : ℕ)
      → find pid procs ≡ some p
      → takes mine pid p ≡ true
      → contains top targets ≡ true
      → (pid ≡ top) ⊎ Below procs stop top pid
      → Member procs targets mine stop (record { pid = pid; start = p.start; depth = d })
  unfolding takes
  new-Member top pid p d found taken t below = record {
    row = p;
    found = found;
    start_eq = refl;
    alive = ground arith;
    visible = ground arith;
    not_mine = ground arith;
    top = top;
    chosen = t;
    below = below;
  }

  set_captured-Member :
      (c : Captured) (cs : List Captured)
      → Member procs targets mine stop c
      → All (Member procs targets mine stop) cs
      → All (Member procs targets mine stop) (set_captured c cs)
  unfolding set_captured
  set_captured-Member c [] m all = (m, tt)
  set_captured-Member c (d ∷ ds) m (h, all) = elim (Bool-cases (d.pid == c.pid)) [
    | inl same ↦ rw same (m, all)
    | inr other ↦ rw other (h, set_captured-Member c ds m all)
  ]

  capture-Member :
      (top : ℕ) (pids : List ℕ) (cs : List Captured)
      → contains top targets ≡ true
      → ((pid : ℕ) → contains pid pids ≡ true → (pid ≡ top) ⊎ Below procs stop top pid)
      → All (Member procs targets mine stop) cs
      → All (Member procs targets mine stop) (capture procs mine top pids cs)
  unfolding capture
  capture-Member top [] cs t below all = all
  capture-Member top (pid ∷ pids) cs t below all = elim (Option-cases (find pid procs)) [
    | inl gone ↦ rw gone (capture-Member top pids cs t (λ q m. below q (ground arith)) all)
    | inr (p, found) ↦ elim (Bool-cases (takes mine pid p)) [
      | inr skipped ↦
          rw (found, skipped) (capture-Member top pids cs t (λ q m. below q (ground arith)) all)
      | inl taken ↦
          let c : Captured = record { pid = pid; start = p.start; depth = depth procs pid top } in
          rw (found, taken)
            (capture-Member top pids (set_captured c cs) t (λ q m. below q (ground arith))
              (set_captured-Member c cs
                (new-Member top pid p (depth procs pid top) found taken t
                  (below pid (ground arith)))
                all))
    ]
  ]

  capture_all-Member :
      (ts : List ℕ) (cs : List Captured)
      → ((t : ℕ) → contains t ts ≡ true → contains t targets ≡ true)
      → All (Member procs targets mine stop) cs
      → All (Member procs targets mine stop) (capture_all procs mine stop ts cs)
  unfolding capture_all
  capture_all-Member [] cs sub all = all
  capture_all-Member (t ∷ ts) cs sub all =
      capture_all-Member ts (capture procs mine t (t ∷ descendants procs stop t) cs)
        (λ q m. sub q (ground arith))
        (capture-Member t (t ∷ descendants procs stop t) cs (sub t (ground arith))
          (λ pid m. elim (Bool-cases (pid == t)) [
            | inl same ↦ inl (ground arith)
            | inr other ↦ inr ((descendants-Below procs stop t pid).0 (ground arith)).0
          ])
          all)

contains-stop :
    (pid : ℕ) (targets roots : List ℕ)
    → contains pid (keep (λ r. not (contains r targets)) roots) ≡ false
    → (contains pid roots ≡ false) ⊎ (contains pid targets ≡ true)
contains-stop pid targets [] h = inl refl
contains-stop pid targets (r ∷ roots) h = ground (arith, contains-stop pid targets roots)

Below-free :
    {procs : List Proc} {stop : List ℕ} {root d : ℕ}
    → Below procs stop root d
    → contains d stop ≡ false
Below-free (Below.child kid free) = free
Below-free (Below.deeper above kid free) = free

-- A captured process that no wrapper guards and that is no other owner's root.
pub record Spared (procs : List Proc) (part : Partition) (rows : List Lease) (targets mine : List ℕ)
    (c : Captured) : Type 0 where
  pub member : Member procs targets mine (stop_of part targets) c
  pub own : (contains c.pid (roots_of part) ≡ false) ⊎ (contains c.pid targets ≡ true)
  pub unheld : is_held procs rows c.pid ≡ false

Member-own :
    (procs : List Proc) (part : Partition) (targets mine : List ℕ) (c : Captured)
    → Member procs targets mine (stop_of part targets) c
    → (contains c.pid (roots_of part) ≡ false) ⊎ (contains c.pid targets ≡ true)
unfolding stop_of
Member-own procs part targets mine c m = elim m.below [
  | inl top ↦ inr (rw top m.chosen)
  | inr below ↦ contains-stop c.pid targets (roots_of part) (Below-free below)
]

keep-Spared :
    (procs : List Proc) (part : Partition) (rows : List Lease) (targets mine : List ℕ)
    (cs : List Captured)
    → All (Member procs targets mine (stop_of part targets)) cs
    → All (Spared procs part rows targets mine) (keep (λ c. not (is_held procs rows c.pid)) cs)
keep-Spared procs part rows targets mine [] all = tt
keep-Spared procs part rows targets mine (c ∷ cs) (m, all) =
    elim (Bool-cases (is_held procs rows c.pid)) [
      | inl held ↦ rw held (keep-Spared procs part rows targets mine cs all)
      | inr unheld ↦ rw unheld (
        record { member = m; own = Member-own procs part targets mine c m; unheld = unheld },
        keep-Spared procs part rows targets mine cs all,
      )
    ]

-- Every process that a stop plans to signal is alive and visible, lies outside memmon's own tree,
-- is a target or below one without passing another owner's root, is itself no root of an owner
-- unless it is a target, and is no `memmon run` wrapper whose child may still run.
pub plan-Spared :
    (procs : List Proc) (part : Partition) (rows : List Lease) (targets mine : List ℕ)
    → All (Spared procs part rows targets mine) (plan procs part rows targets mine).captured
unfolding plan
plan-Spared procs part rows targets mine =
    keep-Spared procs part rows targets mine
      (capture_all procs mine (stop_of part targets) targets [])
      (capture_all-Member procs targets mine (stop_of part targets) targets [] (λ t m. m) tt)

held_of-Member :
    (procs : List Proc) (rows : List Lease) (targets mine stop : List ℕ) (cs : List Captured)
    → All (Member procs targets mine stop) cs
    → All
        (λ h.
          (d : ℕ) × Member procs targets mine stop
            (record { pid = h.wrapper; start = h.start; depth = d }))
        (held_of procs rows cs)
unfolding held_of
held_of-Member procs rows targets mine stop [] all = tt
held_of-Member procs rows targets mine stop (c ∷ cs) (m, all) =
    let rest = held_of-Member procs rows targets mine stop cs all in
    elim (Bool-cases (is_held procs rows c.pid)) [
      | inl held ↦ rw held ((c.depth, m), rest)
      | inr other ↦ rw other rest
    ]

-- The wrappers that the plan holds back are such members too.
pub plan-held_Member :
    (procs : List Proc) (part : Partition) (rows : List Lease) (targets mine : List ℕ)
    → All
        (λ h.
          (d : ℕ) × Member procs targets mine
            (stop_of part targets)
            (record { pid = h.wrapper; start = h.start; depth = d }))
        (plan procs part rows targets mine).held
unfolding plan
plan-held_Member procs part rows targets mine =
    held_of-Member procs rows targets mine (stop_of part targets)
      (capture_all procs mine (stop_of part targets) targets [])
      (capture_all-Member procs targets mine (stop_of part targets) targets [] (λ t m. m) tt)
