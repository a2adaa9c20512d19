-- ===== src/Act/Engine.antt =====
-- memmon_act.py, the fields of `Engine`, `_same`, `_signal`, `_alive`, `_self_tree`, `_lease_rows`
-- and `_holds`. What the engine reads of the machine is `World`: the process table, the leases and
-- the clock may differ at every reading, and `time` counts the readings. A row that is visible has
-- a start, as libproc reads it.
pub mod Quiet
pub mod Clock
use claude_memmon.Prelude.{
  ℕ, zero, suc, ◌+◌, ◌-◌, ◌==◌, String, Bool, true, false, Option, none, some, List, [], ◌∷◌, ◌++◌,
  ◌&&◌, ◌||◌, not, leb, ltb, str_eq, is_some, if◌then◌else◌, length, keep, contains, take,
}
use claude_memmon.Procs.Walk.{Proc, find, descendants}
use claude_memmon.Runner.Footprint.{same_start}

abbrev pub Start : Type 0
Start = Option (ℕ × ℕ)

pub data Signal : Type 0 where
  sigterm sigkill : Signal

-- An entry of `sent`, with the reading just before the signal.
pub record Sent : Type 0 where
  pub pid : ℕ
  pub sig : Signal
  pub at : ℕ

-- A live row of a `memmon run` wrapper.
pub record Lease : Type 0 where
  pub id : String
  pub wrapper_pid : Option ℕ
  pub child_pid : Option ℕ
  pub child_start : Start
  pub is_waiting : Bool

-- What `partition_fn` finds: the owner of each pid, the owners' roots, and each owner's kind.
pub record Partition : Type 0 where
  pub owner_of : ℕ → Option String
  pub root_owner : List (ℕ × String)
  pub kind_of : String → String

pub record World : Type 0 where
  pub table : ℕ → List Proc
  pub leases : ℕ → List Lease
  pub mono : ℕ → ℕ
  pub kill_works : ℕ → Bool
  pub uid : ℕ
  pub own_pid : ℕ
  pub partition_fn : List Proc → Partition
  pub root_rule_fn : List Proc → List ℕ → List (ℕ × String)
  pub grace_s : ℕ

-- What the engine changes. `sent` is kept newest first.
pub record Engine : Type 0 where
  pub time : ℕ
  pub sent : List Sent

unfoldable pub same : Option Proc → Start → Bool
same none start = false
same (some p) start = not p.zombie && same_start p.start start

abbrev pub later : Engine → Engine
later e = record e { time = e.time + 1 }

-- Re-read, and signal only if unchanged; a kill that raises is not recorded.
unfoldable pub signal : World → ℕ → Start → Signal → Engine → Engine × Bool
signal w pid start sig e =
    if same (find pid (w.table e.time)) start && w.kill_works e.time
    then (
      record { time = e.time + 1; sent = record { pid = pid; sig = sig; at = e.time } ∷ e.sent },
      true,
    )
    else (later e, false)

unfoldable pub alive : World → ℕ → Start → Engine → Engine × Bool
alive w pid start e = (later e, same (find pid (w.table e.time)) start)

-- The parent of a row, where it is another process.
abbrev pub other_parent : Option Proc → Option ℕ
other_parent none = none
other_parent (some p) = elim p.ppid [
  | none ↦ none
  | some ppid ↦ if ppid == p.pid then none else some ppid
]

-- The loop of `_self_tree`: one reading for each step, at most `fuel` of them.
unfoldable pub self_tree_loop : World → ℕ → Option ℕ → List ℕ → Engine → Engine × List ℕ
self_tree_loop w zero cur out e = (e, out)
self_tree_loop w (suc fuel) none out e = (e, out)
self_tree_loop w (suc fuel) (some pid) out e =
    let rest =
      self_tree_loop w fuel (other_parent (find pid (w.table e.time))) (pid ∷ out) (later e) in
    if pid == 0 || contains pid out then (e, out) else rest

-- The loop visits no pid twice, and a pid of macOS is below this number.
abbrev pub pid_limit : ℕ
pid_limit = 100000

unfoldable pub self_tree : World → Engine → Engine × List ℕ
self_tree w e = self_tree_loop w pid_limit (some w.own_pid) [] e

-- `_lease_rows`: of two rows with one wrapper, the later counts.
unfoldable pub lease_of : ℕ → List Lease → Option Lease
lease_of pid [] = none
lease_of pid (row ∷ rows) =
    let rest = lease_of pid rows in
    if is_some rest then rest else elim row.wrapper_pid [
      | none ↦ none
      | some w ↦ if w == pid && not (w == 0) then some row else none
    ]

abbrev is_live : List Proc → ℕ → Bool
is_live procs pid = elim (find pid procs) [ none ↦ false | some p ↦ not p.zombie ]

unfoldable pub any_live : List Proc → List ℕ → Bool
any_live procs [] = false
any_live procs (d ∷ ds) = is_live procs d || any_live procs ds

-- The part of `_holds` for a recorded child that is live. A start of ps has no microseconds.
unfoldable pub child_runs : Start → Start → Bool
child_runs want none = true
child_runs none (some s) = true
child_runs (some (a, b)) (some (c, d)) = a == c && b == d || b == 0 && c == a

unfoldable pub child_holds : List Proc → ℕ → Start → Bool
child_holds procs c want = elim (find c procs) [
  | none ↦ false
  | some cp ↦ not cp.zombie && child_runs want cp.start
]

-- The starting window: the child is not recorded yet.
unfoldable pub starting_holds : List Proc → ℕ → Lease → Bool
starting_holds procs w row = not row.is_waiting && any_live procs (descendants procs [] w)

-- `_holds`, of the wrapper `w`.
unfoldable pub holds : List Proc → ℕ → Option Lease → Bool
holds procs w none = false
holds procs w (some row) = elim row.child_pid [
  | none ↦ starting_holds procs w row
  | some c ↦ if c == 0 then starting_holds procs w row else child_holds procs c row.child_start
]
