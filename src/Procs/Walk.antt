-- ===== src/Procs/Walk.antt =====
-- memmon_procs.py, `Proc`, `Inventory.children` and `Inventory.descendants`.
pub mod Bound
pub mod Reach
use claude_memmon.Prelude.{
  ℕ, zero, suc, String, Bool, true, false, Option, none, some, List, [], ◌∷◌, ◌++◌, map, ◌&&◌, ◌||◌,
  not, ◌==◌, if◌then◌else◌, length, keep, contains,
}

-- A row of a scan. `start` is (seconds, microseconds), the identity beside the pid. The fields that
-- no modelled function reads (resident, lifetime_max, argv) are left out.
pub record Proc : Type 0 where
  pub pid : ℕ
  pub start : Option (ℕ × ℕ)
  pub ppid : Option ℕ
  pub pgid : ℕ
  pub uid : ℕ
  pub zombie : Bool
  pub footprint : Option ℕ
  pub cpu_ticks : Option ℕ
  pub comm : String
  pub visible : Bool

-- `procs.get(pid)`
unfoldable pub find : ℕ → List Proc → Option Proc
find pid [] = none
find pid (p ∷ ps) = if p.pid == pid then some p else find pid ps

abbrev pub pids : List Proc → List ℕ
pids ps = map (λ p. p.pid) ps

-- `p.ppid is not None and p.ppid != pid`, for the parent asked for.
abbrev is_child_of : ℕ → Proc → Bool
is_child_of parent p = elim p.ppid [
  | none ↦ false
  | some ppid ↦ ppid == parent && not (ppid == p.pid)
]

-- `children().get(parent, ())`
unfoldable pub children : List Proc → ℕ → List ℕ
children procs parent = pids (keep (is_child_of parent) procs)

-- The variables of the loop. The top of the stack is the head of its list.
pub record Walk : Type 0 where
  pub out : List ℕ
  pub stack : List ℕ
  pub seen : List ℕ

module _ (stop : List ℕ) where
  -- The body of the `for` loop.
  unfoldable pub push : Walk → ℕ → Walk
  push w k =
      if contains k w.seen || contains k stop
      then w
      else record { out = w.out ++ k ∷ []; stack = k ∷ w.stack; seen = k ∷ w.seen }

  unfoldable pub push_all : Walk → List ℕ → Walk
  push_all w [] = w
  push_all w (k ∷ ks) = push_all (push w k) ks

-- The `while` loop, with fuel: the stack, what was found and what was seen.
unfoldable pub walk : List Proc → List ℕ → ℕ → List ℕ → List ℕ → List ℕ → Walk
walk procs stop zero stack out seen = record { out = out; stack = stack; seen = seen }
walk procs stop (suc fuel) [] out seen = record { out = out; stack = []; seen = seen }
walk procs stop (suc fuel) (p ∷ rest) out seen =
    let w = push_all stop (record { out = out; stack = rest; seen = seen }) (children procs p) in
    walk procs stop fuel w.stack w.out w.seen

-- The walk of `descendants`. Each process is pushed at most once, so one round for each of them
-- and for `pid` is enough.
unfoldable pub full_walk : List Proc → List ℕ → ℕ → Walk
full_walk procs stop pid = walk procs stop (suc (suc (length procs))) (pid ∷ []) [] (pid ∷ [])

unfoldable pub descendants : List Proc → List ℕ → ℕ → List ℕ
descendants procs stop pid = (full_walk procs stop pid).out
