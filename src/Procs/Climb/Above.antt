-- ===== src/Procs/Climb/Above.antt =====
-- The upward walks find exactly the ancestors.
use claude_memmon.Prelude.{
  ℕ, zero, suc, ◌<◌, Bool, true, false, Option, none, some, List, [], ◌∷◌, ◌≡◌, ◌↔◌, ◌⊎◌, inl, inr,
  refl, arith, ◌==◌, length, contains, is_some, Bool-cases,
}
use claude_memmon.Procs.Walk.{Proc, find, pids}
use claude_memmon.Procs.Walk.Bound.{unseen, unseen-cons_lt, unseen-le, length-pids}
use claude_memmon.Procs.Climb.{parent_of, seek, has_ancestor_in}

-- `a` is met on the way up from `cur`: every pid on the way is in the table.
pub data Above (procs : List Proc) (a : ℕ) : Option ℕ → Type 0 where
  here : is_some (find a procs) ≡ true → Above procs a (some a)
  up :
      {pid : ℕ}
      → is_some (find pid procs) ≡ true
      → Above procs a (parent_of procs pid)
      → Above procs a (some pid)

find-pids :
    (pid : ℕ) (procs : List Proc)
    → is_some (find pid procs) ≡ true
    → contains pid (pids procs) ≡ true
unfolding find
find-pids pid [] h = ground arith
find-pids pid (p ∷ ps) h = ground (arith, find-pids pid ps)

Above-find :
    {procs : List Proc} {a : ℕ} {cur : Option ℕ}
    → Above procs a cur
    → (pid : ℕ) × (cur ≡ some pid) × (is_some (find pid procs) ≡ true)
Above-find {procs} {a} (here h) = (a, refl, h)
Above-find (up {pid} h above) = (pid, refl, h)

-- The pids that were seen lead one to another, and at last to `cur`; none of them is a hit.
record Trail (procs : List Proc) (hit : ℕ → Bool) (cur : Option ℕ) (seen : List ℕ) : Type 0 where
  leads :
      (q : ℕ)
      → contains q seen ≡ true
      → (parent_of procs q ≡ cur)
        ⊎ ((r : ℕ) × (parent_of procs q ≡ some r) × (contains r seen ≡ true))
  missed : (q : ℕ) → contains q seen ≡ true → hit q ≡ false

-- Nothing but pids that were seen lies above one that leads back into them.
Above-seen :
    (procs : List Proc) (hit : ℕ → Bool) (a pid : ℕ) (seen : List ℕ) (cur : Option ℕ)
    → Above procs a cur
    → (c : ℕ) → cur ≡ some c
    → contains c seen ≡ true
    → Trail procs hit (some pid) seen
    → contains pid seen ≡ true
    → contains a seen ≡ true
Above-seen procs hit a pid seen cur (here h) c e inside trail closed = ground (arith, inside)
Above-seen procs hit a pid seen cur (up {pid = p} h above) c e inside trail closed =
    let inside' : contains p seen ≡ true = ground (arith, inside) in
    elim (trail.leads p inside') [
      | inl back ↦
          Above-seen procs hit a pid seen (parent_of procs p) above pid back closed trail closed
      | inr (r, back, more) ↦
          Above-seen procs hit a pid seen (parent_of procs p) above r back more trail closed
    ]

next-Trail :
    (procs : List Proc) (hit : ℕ → Bool) (pid : ℕ) (seen : List ℕ)
    → Trail procs hit (some pid) seen
    → hit pid ≡ false
    → Trail procs hit (parent_of procs pid) (pid ∷ seen)
next-Trail procs hit pid seen trail miss = record {
  leads = λ q m. elim (Bool-cases (q == pid)) [
    | inl same ↦ inl (let e : q ≡ pid = ground arith in rw e refl)
    | inr other ↦ elim (trail.leads q (ground arith)) [
      | inl back ↦ inr (pid, back, ground arith)
      | inr (r, back, more) ↦ inr (r, back, ground arith)
    ]
  ];
  missed = λ q m. elim (Bool-cases (q == pid)) [
    | inl same ↦ (let e : q ≡ pid = ground arith in rw e miss)
    | inr other ↦ trail.missed q (ground arith)
  ];
}

module _ (procs : List Proc) (hit : ℕ → Bool) where
  -- A hit of the loop is a hit above.
  seek-Above :
      (fuel : ℕ) (cur : Option ℕ) (seen : List ℕ)
      → seek procs hit (λ p. true) fuel cur seen ≡ true
      → (a : ℕ) × (hit a ≡ true) × Above procs a cur
  unfolding seek
  seek-Above zero cur seen h = absurd (ground arith)
  seek-Above (suc fuel) none seen h = absurd (ground arith)
  seek-Above (suc fuel) (some pid) seen h = elim (Bool-cases (hit pid)) [
    | inl found ↦ (pid, found, here (ground arith))
    | inr more ↦
        let (a, found, above) = seek-Above fuel (parent_of procs pid) (pid ∷ seen) (ground arith) in
        (a, found, up (ground arith) above)
  ]

  -- A hit above is found, with a round for every process that was not yet seen.
  Above-seek :
      (fuel : ℕ) (cur : Option ℕ) (seen : List ℕ) (a : ℕ)
      → unseen seen (pids procs) < fuel
      → Trail procs hit cur seen
      → hit a ≡ true
      → Above procs a cur
      → seek procs hit (λ p. true) fuel cur seen ≡ true
  unfolding seek
  Above-seek zero cur seen a few trail found above = absurd (omega arith)
  Above-seek (suc fuel) none seen a few trail found above = let (pid, e, h) = Above-find above in cc
  Above-seek (suc fuel) (some pid) seen a few trail found (here h) =
      elim (Bool-cases (contains pid seen)) [
        | inl old ↦ absurd (ground (arith, trail.missed pid old))
        | inr new ↦ rw (h, new, found) refl
      ]
  Above-seek (suc fuel) (some pid) seen a few trail found (up h above) =
      elim (Bool-cases (contains pid seen)) [
        | inl old ↦
            let inside =
              Above-seen procs hit a pid seen (some pid) (up h above) pid refl old trail old in
            absurd (ground (arith, trail.missed a inside))
        | inr new ↦ elim (Bool-cases (hit pid)) [
          | inl first ↦ rw (h, new, first) refl
          | inr miss ↦
              rw (h, new, miss)
                (Above-seek fuel (parent_of procs pid) (pid ∷ seen) a
                  (omega (arith, unseen-cons_lt pid seen (pids procs) (find-pids pid procs h) new))
                  (next-Trail procs hit pid seen trail miss) found above)
        ]
      ]

-- A process has an ancestor in `set` exactly when a member of `set` lies above it, reached over
-- parents that are all in the table. The walk ends, with cycles among the parents too.
pub has_ancestor_in-Above :
    (procs : List Proc) (pid : ℕ) (set : List ℕ)
    → (has_ancestor_in procs pid set ≡ true)
      ↔ ((a : ℕ) × (contains a set ≡ true) × Above procs a (parent_of procs pid))
unfolding has_ancestor_in
has_ancestor_in-Above procs pid set =
    let hit = λ (p : ℕ). contains p set in
    (
      seek-Above procs hit (suc (length procs)) (parent_of procs pid) [],
      λ h.
          Above-seek procs hit (suc (length procs)) (parent_of procs pid) [] h.0
            (omega (arith, unseen-le [] (pids procs), length-pids procs))
            (record { leads = λ q m. absurd (ground arith); missed = λ q m. absurd (ground arith) })
            h.1 h.2,
    )
