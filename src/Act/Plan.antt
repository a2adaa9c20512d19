-- ===== src/Act/Plan.antt =====
-- memmon_act.py, `_plan`: what a stop of some targets captures, keeps and holds back. The dicts
-- are lists in insertion order.
pub mod Spares
use claude_memmon.Prelude.{
  ℕ, suc, ◌==◌, String, Bool, true, false, Option, none, some, List, [], ◌∷◌, ◌++◌, map, ◌&&◌, ◌||◌,
  not, leb, str_eq, is_some, if◌then◌else◌, keep, contains,
}
use claude_memmon.Procs.Walk.{Proc, find, descendants}
use claude_memmon.Procs.Climb.{depth}
use claude_memmon.Act.Engine.{Start, Lease, Partition, lease_of, holds}

-- `captured[pid]` and `depth[pid]`.
pub record Captured : Type 0 where
  pub pid : ℕ
  pub start : Start
  pub depth : ℕ

-- `kept[owner_id]`
pub record Kept : Type 0 where
  pub owner : String
  pub pid : ℕ
  pub start : Start

-- `held[wrapper]`
pub record Held : Type 0 where
  pub wrapper : ℕ
  pub start : Start
  pub row : Option Lease

pub record Plan : Type 0 where
  pub stop : List ℕ
  pub captured : List Captured
  pub kept : List Kept
  pub held : List Held

abbrev pub roots_of : Partition → List ℕ
roots_of part = map (λ r. r.0) part.root_owner

-- `set(part.root_owner) - set(targets)`
unfoldable pub stop_of : Partition → List ℕ → List ℕ
stop_of part targets = keep (λ r. not (contains r targets)) (roots_of part)

-- `part.root_owner.get(pid)`
unfoldable pub owner_at : ℕ → List (ℕ × String) → Option String
owner_at pid [] = none
owner_at pid ((r, oid) ∷ roots) = if r == pid then some oid else owner_at pid roots

unfoldable pub has_captured : ℕ → List Captured → Bool
has_captured pid [] = false
has_captured pid (c ∷ cs) = c.pid == pid || has_captured pid cs

-- `captured[pid] = p.start; depth[pid] = …`
unfoldable pub set_captured : Captured → List Captured → List Captured
set_captured c [] = c ∷ []
set_captured c (d ∷ ds) = if d.pid == c.pid then c ∷ ds else d ∷ set_captured c ds

unfoldable pub has_kept : String → List Kept → Bool
has_kept oid [] = false
has_kept oid (k ∷ ks) = str_eq k.owner oid || has_kept oid ks

-- `kept.setdefault(oid, (pid, start))`
unfoldable pub add_kept : Kept → List Kept → List Kept
add_kept k ks = if has_kept k.owner ks then ks else ks ++ k ∷ []

-- Whether a member is captured: not of memmon's own tree, alive and visible.
unfoldable pub takes : List ℕ → ℕ → Proc → Bool
takes mine pid p = not (contains pid mine) && (not p.zombie && p.visible)

unfoldable pub capture : List Proc → List ℕ → ℕ → List ℕ → List Captured → List Captured
capture procs mine top [] cs = cs
capture procs mine top (pid ∷ pids) cs = capture procs mine top pids (elim (find pid procs) [
  | none ↦ cs
  | some p ↦
      if takes mine pid p
      then set_captured (record { pid = pid; start = p.start; depth = depth procs pid top }) cs
      else cs
])

-- `procs[r].start`
abbrev pub start_at : List Proc → ℕ → Start
start_at procs pid = elim (find pid procs) [ none ↦ none | some p ↦ p.start ]

unfoldable pub keep_roots : List Proc → Partition → List ℕ → List ℕ → List Kept → List Kept
keep_roots procs part stop [] ks = ks
keep_roots procs part stop (r ∷ rs) ks = keep_roots procs part stop rs (
    if contains r stop
    then elim (owner_at r part.root_owner) [
      | none ↦ ks
      | some oid ↦ add_kept (record { owner = oid; pid = r; start = start_at procs r }) ks
    ]
    else ks)

unfoldable pub capture_all : List Proc → List ℕ → List ℕ → List ℕ → List Captured → List Captured
capture_all procs mine stop [] cs = cs
capture_all procs mine stop (t ∷ ts) cs =
    capture_all procs mine stop ts (capture procs mine t (t ∷ descendants procs stop t) cs)

unfoldable pub keep_all : List Proc → Partition → List ℕ → List ℕ → List Kept → List Kept
keep_all procs part stop [] ks = ks
keep_all procs part stop (t ∷ ts) ks =
    keep_all procs part stop ts (keep_roots procs part stop (descendants procs [] t) ks)

-- Whether a captured pid is a wrapper that must be held back.
unfoldable pub is_held : List Proc → List Lease → ℕ → Bool
is_held procs rows pid = elim (lease_of pid rows) [
  | none ↦ false
  | some row ↦ holds procs pid (some row)
]

unfoldable pub held_of : List Proc → List Lease → List Captured → List Held
held_of procs rows [] = []
held_of procs rows (c ∷ cs) =
    let rest = held_of procs rows cs in
    if is_held procs rows c.pid
    then record { wrapper = c.pid; start = c.start; row = lease_of c.pid rows } ∷ rest
    else rest

unfoldable pub plan : List Proc → Partition → List Lease → List ℕ → List ℕ → Plan
plan procs part rows targets mine =
    let stop = stop_of part targets in
    let all = capture_all procs mine stop targets [] in
    record {
      stop = stop;
      captured = keep (λ c. not (is_held procs rows c.pid)) all;
      kept = keep_all procs part stop targets [];
      held = held_of procs rows all;
    }
