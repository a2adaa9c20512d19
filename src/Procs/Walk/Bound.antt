-- ===== src/Procs/Walk/Bound.antt =====
-- The walk empties its stack within the fuel that it is given.
use claude_memmon.Prelude.{
  ℕ, zero, suc, ◌+◌, ◌≤◌, ◌<◌, true, false, List, [], ◌∷◌, ◌≡◌, refl, arith, if◌then◌else◌, length,
  contains,
}
use claude_memmon.Procs.Walk.{Proc, pids, children, Walk, push, push_all, walk, full_walk}

-- How many of `xs` are not among `seen`.
unfoldable pub unseen : List ℕ → List ℕ → ℕ
unseen seen [] = 0
unseen seen (x ∷ xs) = let rest = unseen seen xs in if contains x seen then rest else suc rest

unseen-cons_le : (k : ℕ) (seen xs : List ℕ) → unseen (k ∷ seen) xs ≤ unseen seen xs
unfolding unseen
unseen-cons_le k seen [] = omega arith
unseen-cons_le k seen (x ∷ xs) = ground (arith, unseen-cons_le k seen xs)

pub unseen-cons_lt :
    (k : ℕ) (seen xs : List ℕ)
    → contains k xs ≡ true
    → contains k seen ≡ false
    → unseen (k ∷ seen) xs < unseen seen xs
unfolding unseen
unseen-cons_lt k seen [] m new = ground arith
unseen-cons_lt k seen (x ∷ xs) m new =
    ground (arith, unseen-cons_le k seen xs, unseen-cons_lt k seen xs)

pub unseen-le : (seen xs : List ℕ) → unseen seen xs ≤ length xs
unfolding unseen
unseen-le seen [] = omega arith
unseen-le seen (x ∷ xs) = ground (arith, unseen-le seen xs)

pub length-pids : (ps : List Proc) → length (pids ps) ≡ length ps
length-pids [] = refl
length-pids (p ∷ ps) = omega (arith, length-pids ps)

-- A kept row is a row.
pub children-pids :
    (k parent : ℕ) (procs : List Proc)
    → contains k (children procs parent) ≡ true
    → contains k (pids procs) ≡ true
unfolding children
children-pids k parent [] h = h
children-pids k parent (p ∷ ps) h = ground (arith, children-pids k parent ps)

abbrev AllIn : List ℕ → List ℕ → Type 0
AllIn ks xs = (k : ℕ) → contains k ks ≡ true → contains k xs ≡ true

-- What a round cannot raise, and a pop lowers.
abbrev pub measure : List Proc → Walk → ℕ
measure procs w = length w.stack + unseen w.seen (pids procs)

module _ (procs : List Proc) (stop : List ℕ) where
  push-measure :
      (w : Walk) (k : ℕ)
      → contains k (pids procs) ≡ true
      → measure procs (push stop w k) ≤ measure procs w
  unfolding push
  push-measure w k m = ground (arith, unseen-cons_lt k w.seen (pids procs))

  push_all-measure :
      (w : Walk) (ks : List ℕ)
      → AllIn ks (pids procs)
      → measure procs (push_all stop w ks) ≤ measure procs w
  unfolding push_all
  push_all-measure w [] all = omega arith
  push_all-measure w (k ∷ ks) all = omega (
    arith,
    push-measure w k (all k (ground arith)),
    push_all-measure (push stop w k) ks (λ j m. all j (ground arith)),
  )

  -- With more fuel than the measure, the walk ends on an empty stack.
  walk-empty :
      (fuel : ℕ) (stack out seen : List ℕ)
      → length stack + unseen seen (pids procs) < fuel
      → (walk procs stop fuel stack out seen).stack ≡ []
  unfolding walk
  walk-empty zero stack out seen h = absurd (omega arith)
  walk-empty (suc fuel) [] out seen h = refl
  walk-empty (suc fuel) (p ∷ rest) out seen h =
      let w0 : Walk = record { out = out; stack = rest; seen = seen } in
      let w = push_all stop w0 (children procs p) in
      walk-empty fuel w.stack w.out w.seen
        (omega (arith, push_all-measure w0 (children procs p) (λ k. children-pids k p procs)))

  pub full_walk-empty : (pid : ℕ) → (full_walk procs stop pid).stack ≡ []
  unfolding full_walk
  full_walk-empty pid =
      walk-empty (suc (suc (length procs))) (pid ∷ []) [] (pid ∷ [])
        (omega (arith, unseen-le (pid ∷ []) (pids procs), length-pids procs))
