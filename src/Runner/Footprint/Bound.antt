-- ===== src/Runner/Footprint/Bound.antt =====
-- The scan of a job's tree ends within its fuel and counts no process twice.
use claude_memmon.Prelude.{
  ℕ, zero, suc, ◌+◌, ◌≤◌, ◌<◌, true, false, none, some, List, [], ◌∷◌, ◌≡◌, refl, arith, get_or,
  if◌then◌else◌, length, contains, Option-cases, inl, inr,
}
use claude_memmon.Procs.Walk.{Proc, find}
use claude_memmon.Runner.Jobs.{Child}
use claude_memmon.Runner.Footprint.{
  kids, Scan, extend, scan_step, scan, full_scan, tree_footprint, is_child,
}

-- The rows whose parent was not seen yet: at most these can still be pushed.
unclaimed : List ℕ → List Proc → ℕ
unclaimed seen [] = 0
unclaimed seen (p ∷ ps) =
    let rest = unclaimed seen ps in
    elim p.ppid [ none ↦ suc rest | some parent ↦ if contains parent seen then rest else suc rest ]

unclaimed-kids :
    (pid : ℕ) (seen : List ℕ) (procs : List Proc)
    → contains pid seen ≡ false
    → unclaimed (pid ∷ seen) procs + length (kids procs pid) ≡ unclaimed seen procs
unfolding unclaimed kids
unclaimed-kids pid seen [] new = omega arith
unclaimed-kids pid seen (p ∷ ps) new = ground (arith, unclaimed-kids pid seen ps new)

unclaimed-le : (seen : List ℕ) (procs : List Proc) → unclaimed seen procs ≤ length procs
unfolding unclaimed
unclaimed-le seen [] = omega arith
unclaimed-le seen (p ∷ ps) = ground (arith, unclaimed-le seen ps)

unclaimed-cons_le :
    (pid : ℕ) (seen : List ℕ) (procs : List Proc)
    → unclaimed (pid ∷ seen) procs ≤ unclaimed seen procs
unfolding unclaimed
unclaimed-cons_le pid seen [] = omega arith
unclaimed-cons_le pid seen (p ∷ ps) = ground (arith, unclaimed-cons_le pid seen ps)

length-extend : (stack ks : List ℕ) → length (extend stack ks) ≡ length stack + length ks
unfolding extend
length-extend stack [] = omega arith
length-extend stack (k ∷ ks) = omega (arith, length-extend (k ∷ stack) ks)

scan_step-measure :
    (procs : List Proc) (s : Scan) (pid : ℕ)
    → length (scan_step procs s pid).stack + unclaimed (scan_step procs s pid).seen procs
      ≤ length s.stack + unclaimed s.seen procs
unfolding scan_step
scan_step-measure procs s pid = ground (
  arith,
  unclaimed-kids pid s.seen procs,
  unclaimed-cons_le pid s.seen procs,
  length-extend s.stack (kids procs pid),
)

scan-empty :
    (procs : List Proc) (fuel : ℕ) (stack : List ℕ) (total : ℕ) (seen : List ℕ)
    → length stack + unclaimed seen procs < fuel
    → (scan procs fuel stack total seen).stack ≡ []
unfolding scan
scan-empty procs zero stack total seen h = absurd (omega arith)
scan-empty procs (suc fuel) [] total seen h = refl
scan-empty procs (suc fuel) (pid ∷ rest) total seen h =
    let s0 : Scan = record { total = total; stack = rest; seen = seen } in
    let s = scan_step procs s0 pid in
    scan-empty procs fuel s.stack s.total s.seen (omega (arith, scan_step-measure procs s0 pid))

-- The footprints of the rows that were not seen.
unseen_sum : List ℕ → List Proc → ℕ
unseen_sum seen [] = 0
unseen_sum seen (p ∷ ps) =
    let rest = unseen_sum seen ps in
    if contains p.pid seen then rest else get_or p.footprint 0 + rest

-- The footprints of all rows of the table.
unfoldable pub sum_footprints : List Proc → ℕ
sum_footprints [] = 0
sum_footprints (p ∷ ps) = get_or p.footprint 0 + sum_footprints ps

unseen_sum-cons_le :
    (pid : ℕ) (seen : List ℕ) (procs : List Proc)
    → unseen_sum (pid ∷ seen) procs ≤ unseen_sum seen procs
unfolding unseen_sum
unseen_sum-cons_le pid seen [] = omega arith
unseen_sum-cons_le pid seen (p ∷ ps) = ground (arith, unseen_sum-cons_le pid seen ps)

unseen_sum-find :
    (pid : ℕ) (seen : List ℕ) (procs : List Proc) (q : Proc)
    → find pid procs ≡ some q
    → contains pid seen ≡ false
    → unseen_sum (pid ∷ seen) procs + get_or q.footprint 0 ≤ unseen_sum seen procs
unfolding unseen_sum find
unseen_sum-find pid seen [] q h new = ground arith
unseen_sum-find pid seen (p ∷ ps) q h new =
    ground (arith, unseen_sum-cons_le pid seen ps, unseen_sum-find pid seen ps q)

unseen_sum-nil : (procs : List Proc) → unseen_sum [] procs ≡ sum_footprints procs
unfolding unseen_sum sum_footprints
unseen_sum-nil [] = refl
unseen_sum-nil (p ∷ ps) = omega (arith, unseen_sum-nil ps)

scan_step-sum :
    (procs : List Proc) (s : Scan) (pid : ℕ)
    → (scan_step procs s pid).total + unseen_sum (scan_step procs s pid).seen procs
      ≤ s.total + unseen_sum s.seen procs
unfolding scan_step
scan_step-sum procs s pid = elim (Option-cases (find pid procs)) [
  | inl gone ↦ ground (arith, unseen_sum-cons_le pid s.seen procs)
  | inr (q, found) ↦
      ground (arith, unseen_sum-cons_le pid s.seen procs, unseen_sum-find pid s.seen procs q)
]

scan_step-total : (procs : List Proc) (s : Scan) (pid : ℕ) → s.total ≤ (scan_step procs s pid).total
unfolding scan_step
scan_step-total procs s pid = ground arith

scan-sum :
    (procs : List Proc) (fuel : ℕ) (stack : List ℕ) (total : ℕ) (seen : List ℕ)
    → (total ≤ (scan procs fuel stack total seen).total)
      × ((scan procs fuel stack total seen).total ≤ total + unseen_sum seen procs)
unfolding scan
scan-sum procs zero stack total seen = (omega arith, omega arith)
scan-sum procs (suc fuel) [] total seen = (omega arith, omega arith)
scan-sum procs (suc fuel) (pid ∷ rest) total seen =
    let s0 : Scan = record { total = total; stack = rest; seen = seen } in
    let s = scan_step procs s0 pid in
    let (low, high) = scan-sum procs fuel s.stack s.total s.seen in
    (
      omega (arith, low, scan_step-total procs s0 pid),
      omega (arith, high, scan_step-sum procs s0 pid),
    )

pub full_scan-empty : (procs : List Proc) (pid : ℕ) → (full_scan procs pid).stack ≡ []
unfolding full_scan
full_scan-empty procs pid =
    scan-empty procs (suc (suc (length procs))) (pid ∷ []) 0 []
      (omega (arith, unclaimed-le [] procs))

find-pid : (pid : ℕ) (procs : List Proc) (p : Proc) → find pid procs ≡ some p → p.pid ≡ pid
unfolding find
find-pid pid [] p h = ground arith
find-pid pid (q ∷ qs) p h = ground (arith, find-pid pid qs p)

first_total :
    (procs : List Proc) (pid : ℕ) (p : Proc)
    → find pid procs ≡ some p
    → p.zombie ≡ false
    → get_or p.footprint 0
      ≤ (scan_step procs (record { total = 0; stack = []; seen = [] }) pid).total
unfolding scan_step
first_total procs pid p found live = rw (found, live) (omega arith)

-- A live process at the root is counted.
full_scan-root :
    (procs : List Proc) (pid : ℕ) (p : Proc)
    → find pid procs ≡ some p
    → p.zombie ≡ false
    → get_or p.footprint 0 ≤ (full_scan procs pid).total
unfolding full_scan scan
full_scan-root procs pid p found live =
    let s = scan_step procs (record { total = 0; stack = []; seen = [] }) pid in
    omega (
      arith,
      (scan-sum procs (suc (length procs)) s.stack s.total s.seen).0,
      first_total procs pid p found live,
    )

full_scan-le : (procs : List Proc) (pid : ℕ) → (full_scan procs pid).total ≤ sum_footprints procs
unfolding full_scan
full_scan-le procs pid =
    omega
      (arith, (scan-sum procs (suc (suc (length procs))) (pid ∷ []) 0 []).1, unseen_sum-nil procs)

live_of : (p : Proc) (c : Child) → is_child p c ≡ true → p.zombie ≡ false
unfolding is_child
live_of p c h = ground arith

-- What `_tree_footprint` reports is the footprint of a live process with the child's own pid and
-- start, or more, and never more than all processes of the table together: the walk ends with
-- every pid that it pushed looked at, and counts none of them twice, with parent cycles too.
pub tree_footprint_bounds :
    (procs : List Proc) (c : Child) (f : ℕ)
    → tree_footprint procs (some c) ≡ some f
    → (p : Proc) × (find c.pid procs ≡ some p)
      × (is_child p c ≡ true)
      × (get_or p.footprint 0 ≤ f)
      × (f ≤ sum_footprints procs)
      × ((full_scan procs c.pid).stack ≡ [])
unfolding tree_footprint
tree_footprint_bounds procs c f h = elim (Option-cases (find c.pid procs)) [
  | inl gone ↦ absurd (ground arith)
  | inr (p, found) ↦ (
    p,
    found,
    ground arith,
    ground (arith, full_scan-root procs c.pid p found, live_of p c, find-pid c.pid procs p found),
    ground (arith, full_scan-le procs c.pid, find-pid c.pid procs p found),
    full_scan-empty procs c.pid,
  )
]
