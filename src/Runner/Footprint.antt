-- ===== src/Runner/Footprint.antt =====
-- memmon_runner.py, `_kids` and `_tree_footprint`: the memory of a job's process tree.
pub mod Bound
use claude_memmon.Prelude.{
  ℕ, zero, suc, ◌+◌, Bool, true, false, Option, none, some, List, [], ◌∷◌, ◌&&◌, not, ◌==◌, is_some,
  get_or, if◌then◌else◌, length, keep, contains,
}
use claude_memmon.Procs.Walk.{Proc, pids, find}
use claude_memmon.Runner.Jobs.{Child}

abbrev has_parent : ℕ → Proc → Bool
has_parent parent p = elim p.ppid [ none ↦ false | some ppid ↦ ppid == parent ]

-- `kids.get(pid, ())`
unfoldable pub kids : List Proc → ℕ → List ℕ
kids procs pid = pids (keep (has_parent pid) procs)

-- The variables of the loop. The top of the stack is the head of its list.
pub record Scan : Type 0 where
  pub total : ℕ
  pub stack : List ℕ
  pub seen : List ℕ

-- `stack.extend(kids)`: the last of `ks` comes to the top.
unfoldable pub extend : List ℕ → List ℕ → List ℕ
extend stack [] = stack
extend stack (k ∷ ks) = extend (k ∷ stack) ks

-- One round for the pid that was popped: skipped if it was seen, is gone or is a zombie.
unfoldable pub scan_step : List Proc → Scan → ℕ → Scan
scan_step procs s pid = if contains pid s.seen then s else elim (find pid procs) [
  | none ↦ record s { seen = pid ∷ s.seen }
  | some q ↦ if q.zombie then record s { seen = pid ∷ s.seen } else record {
    total = s.total + get_or q.footprint 0;
    stack = extend s.stack (kids procs pid);
    seen = pid ∷ s.seen;
  }
]

-- The `while` loop, with fuel.
unfoldable pub scan : List Proc → ℕ → List ℕ → ℕ → List ℕ → Scan
scan procs zero stack total seen = record { total = total; stack = stack; seen = seen }
scan procs (suc fuel) [] total seen = record { total = total; stack = []; seen = seen }
scan procs (suc fuel) (pid ∷ rest) total seen =
    let s = scan_step procs (record { total = total; stack = rest; seen = seen }) pid in
    scan procs fuel s.stack s.total s.seen

-- Every process is pushed at most once by its parent, so this fuel is enough.
unfoldable pub full_scan : List Proc → ℕ → Scan
full_scan procs pid = scan procs (suc (suc (length procs))) (pid ∷ []) 0 []

-- `(sec, usec)` pairs, compared as the source compares its lists.
abbrev pub same_start : Option (ℕ × ℕ) → Option (ℕ × ℕ) → Bool
same_start (some (a, b)) (some (c, d)) = a == c && b == d
same_start _ _ = false

-- That exact process, alive and measured.
unfoldable pub is_child : Proc → Child → Bool
is_child p child = not p.zombie && same_start p.start child.start && is_some p.footprint

unfoldable pub tree_footprint : List Proc → Option Child → Option ℕ
tree_footprint procs none = none
tree_footprint procs (some child) = if child.pid == 0 then none else elim (find child.pid procs) [
  | none ↦ none
  | some p ↦ if is_child p child then some (full_scan procs p.pid).total else none
]
