-- ===== src/Examples/Procs.antt =====
-- memmon_procs.py: a shell with a child and a grandchild, whose parents form a cycle.
use claude_memmon.Prelude.{
  ℕ, true, false, some, none, List, [], ◌∷◌, ◌≡◌, ◌↔◌, ◌≢◌, contains, refl, ◌≤◌, get_or,
}
use claude_memmon.Procs.Walk.{Proc, descendants, find}
use claude_memmon.Procs.Walk.Reach.{Below, descendants-Below}
use claude_memmon.Procs.Climb.{has_ancestor_in, parent_of}
use claude_memmon.Procs.Climb.Above.{Above, has_ancestor_in-Above}
use claude_memmon.Runner.Jobs.{Child}
use claude_memmon.Runner.Footprint.{
  tree_footprint, is_child, full_scan, scan, scan_step, kids, extend,
}
use claude_memmon.Runner.Footprint.Bound.{sum_footprints, tree_footprint_bounds}

abbrev proc : ℕ → ℕ → ℕ → Proc
proc pid ppid bytes = record {
  pid = pid;
  start = some (pid, 0);
  ppid = some ppid;
  pgid = pid;
  uid = 501;
  zombie = false;
  footprint = some bytes;
  cpu_ticks = none;
  comm = "node";
  visible = true;
}

abbrev table : List Proc
table = proc 10 12 100 ∷ proc 11 10 20 ∷ proc 12 11 3 ∷ proc 13 1 7000 ∷ []

abbrev child_pid : ℕ
child_pid = 12

abbrev root_pid : ℕ
root_pid = 10

descendants-Below_example :
    (contains child_pid (descendants table (13 ∷ []) root_pid) ≡ true)
    ↔ (Below table (13 ∷ []) root_pid child_pid × (child_pid ≢ root_pid))
descendants-Below_example = descendants-Below table (13 ∷ []) root_pid child_pid

abbrev shell : Child
shell = record { pid = 10; start = some (10, 0) }

shell_footprint : tree_footprint table (some shell) ≡ some 123
unfolding tree_footprint find is_child full_scan scan scan_step kids extend
shell_footprint = refl

tree_footprint_bounds_example :
    (p : Proc) × (find 10 table ≡ some p)
    × (is_child p shell ≡ true)
    × (get_or p.footprint 0 ≤ 123)
    × (123 ≤ sum_footprints table)
    × ((full_scan table 10).stack ≡ [])
tree_footprint_bounds_example = tree_footprint_bounds table shell 123 shell_footprint

has_ancestor_in-Above_example :
    (has_ancestor_in table child_pid (root_pid ∷ []) ≡ true)
    ↔ ((a : ℕ) × (contains a (root_pid ∷ []) ≡ true) × Above table a (parent_of table child_pid))
has_ancestor_in-Above_example = has_ancestor_in-Above table child_pid (root_pid ∷ [])
