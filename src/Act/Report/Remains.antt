-- ===== src/Act/Report/Remains.antt =====
-- memmon_act.py, the end of `_graceful`: the processes that are still there after the rounds.
use claude_memmon.Prelude.{
  ℕ, suc, ◌==◌, String, Bool, true, false, Option, none, some, List, [], ◌∷◌, ◌++◌, map, ◌&&◌, ◌||◌,
  not, str_eq, if◌then◌else◌, length, keep, contains,
}
use claude_memmon.Procs.Walk.{Proc, find}
use claude_memmon.Procs.Climb.{parent_of, climb}
use claude_memmon.Act.Engine.{Start, Lease, Partition, same}
use claude_memmon.Act.Plan.{Captured, Kept, Held, has_captured, has_kept}
use claude_memmon.Act.Watch.{Stop, Group, captured_start, has_held}

abbrev pub observed_cap : ℕ
observed_cap = 64

pub data Role : Type 0 where
  survivor runner observed : Role

-- A row of `remaining`.
pub record Left : Type 0 where
  pub pid : ℕ
  pub start : Start
  pub forceable : Bool
  pub role : Role
  pub signalled : Bool

-- A survivor as the token names it.
pub record Named : Type 0 where
  pub pid : ℕ
  pub start : Start
  pub selected : Bool

pub record Runner : Type 0 where
  pub pid : ℕ
  pub start : Start
  pub child_pid : Option ℕ
  pub child_start : Start

-- The body of a force token.
pub record ForceBody : Type 0 where
  pub origin : String
  pub owner_root : Option ℕ
  pub survivors : List Named
  pub observed : List (ℕ × Start)
  pub observed_total : ℕ
  pub observed_pgids : List ℕ
  pub runners : List Runner

pub data Result : Type 0 where
  stopped force_stopped already_exited would_stop partial refused verified : Result

pub record Outcome : Type 0 where
  pub result : Result
  pub exited : ℕ
  pub remaining : List Left
  pub kept : List String
  pub captured : ℕ
  pub forceable : ℕ
  pub observed : ℕ
  pub force_token : Option ForceBody

-- The captured processes that are still themselves.
unfoldable pub survivors_of : List Proc → List Captured → List Captured
survivors_of final cs = keep (λ c. same (find c.pid final) c.start) cs

abbrev pub pids_of : List Captured → List ℕ
pids_of cs = map (λ c. c.pid) cs

-- `remaining.setdefault(pid, …)`
unfoldable pub add_pid : ℕ → List ℕ → List ℕ
add_pid pid ps = if contains pid ps then ps else ps ++ pid ∷ []

unfoldable pub add_pids : List ℕ → List ℕ → List ℕ
add_pids [] ps = ps
add_pids (d ∷ ds) ps = add_pids ds (add_pid d ps)

-- `oid in mine_owner`, for `{owner_id, None} | {owner of each target}`.
unfoldable pub is_own : Partition → Option String → List ℕ → Option String → Bool
is_own part owner_id targets none = true
is_own part owner_id [] (some oid) = elim owner_id [ none ↦ false | some o ↦ str_eq o oid ]
is_own part owner_id (t ∷ ts) (some oid) =
    elim (part.owner_of t) [ none ↦ false | some o ↦ str_eq o oid ]
    || is_own part owner_id ts (some oid)

abbrev kept_pids : List Kept → List ℕ
kept_pids ks = map (λ k. k.pid) ks

abbrev lease_child : Option Lease → Option ℕ
lease_child none = none
lease_child (some row) = row.child_pid

abbrev is_kept_child : List Kept → Option ℕ → Bool
is_kept_child ks none = false
is_kept_child ks (some c) = contains c (kept_pids ks)

-- `child_pgid.get(w, (None,))[0]`
unfoldable pub group_child : ℕ → List Group → Option ℕ
group_child w [] = none
group_child w (g ∷ gs) = if g.wrapper == w then some g.child else group_child w gs

-- What a stop was asked for.
pub record Request : Type 0 where
  pub part : Partition
  pub targets : List ℕ
  pub owner_id : Option String
  pub origin : String
  pub owner_root : Option ℕ
  pub selected : List ℕ
  pub mine : List ℕ

-- A wrapper that is still held and is reported as a runner.
unfoldable pub is_runner : Request → List Proc → Stop → Held → Bool
is_runner q final st h =
    same (find h.wrapper final) h.start
    && (not (is_kept_child st.kept (lease_child h.row))
        && (contains h.wrapper q.targets
            || is_own q.part q.owner_id q.targets (q.part.owner_of h.wrapper)))

abbrev child_start_of : List Captured → Option ℕ → Start
child_start_of cs none = none
child_start_of cs (some c) = captured_start c cs

abbrev runner_of : Stop → Held → Runner
runner_of st h =
    let child = group_child h.wrapper st.child_pgid in
    record {
      pid = h.wrapper;
      start = h.start;
      child_pid = child;
      child_start = child_start_of st.captured child;
    }

unfoldable pub runners_of : Request → List Proc → Stop → List Held → List Runner
runners_of q final st hs = map (runner_of st) (keep (is_runner q final st) hs)

-- The groups of the lease children that were part of this stop.
unfoldable pub lease_pgids : List Captured → List Group → List ℕ
lease_pgids cs gs = map (λ g. g.pgid) (keep (λ (g : Group). has_captured g.child cs) gs)

-- The ancestors of all targets.
unfoldable pub target_ancestors : List Proc → List ℕ → List ℕ → List ℕ
target_ancestors inv [] out = out
target_ancestors inv (t ∷ ts) out =
    target_ancestors inv ts (climb inv (suc (length inv)) (parent_of inv t) out)

abbrev pub pgid_at : List Proc → ℕ → ℕ
pgid_at procs pid = elim (find pid procs) [ none ↦ 0 | some p ↦ p.pgid ]

abbrev owned_by_kept : List Kept → Option String → Bool
owned_by_kept ks none = false
owned_by_kept ks (some oid) = has_kept oid ks

abbrev is_unknown : Partition → Option String → Bool
is_unknown part none = false
is_unknown part (some oid) = str_eq (part.kind_of oid) "unknown"

-- Whether the sweep looks at a row at all.
unfoldable pub is_swept : Request → List ℕ → Stop → Proc → Bool
is_swept q above st p =
    not (same (some p) (captured_start p.pid st.captured))
    && (not (contains p.pid q.mine)
        && (not (contains p.pid above)
            && (not (contains p.pid st.excluded)
                && (not (has_held p.pid st.ever_held)
                    && (not p.zombie
                        && (p.visible && not (owned_by_kept st.kept (q.part.owner_of p.pid))))))))

-- A member of the targets' groups, or of a lease child's group.
unfoldable pub is_grouped : Request → List ℕ → List ℕ → Proc → Bool
is_grouped q pgids leases p =
    contains p.pgid pgids
    || contains p.pgid leases
      && (is_own q.part q.owner_id q.targets (q.part.owner_of p.pid)
          || is_unknown q.part (q.part.owner_of p.pid))

unfoldable pub sweep : Request → List Proc → List Proc → Stop → List ℕ
sweep q inv final st =
    map (λ p. p.pid)
      (keep
        (λ (p : Proc).
          is_swept q (target_ancestors inv q.targets []) st p
          && is_grouped q (map (pgid_at inv) q.targets) (lease_pgids st.captured st.child_pgid) p)
        final)

-- `remaining`, as pids: the survivors, what is below them, the runners and the sweep.
unfoldable pub remaining_of : Request → List Proc → List Proc → Stop → List ℕ → List ℕ
remaining_of q inv final st found = add_pids (sweep q inv final st) (
    add_pids (map (λ r. r.pid) (runners_of q final st st.held))
      (add_pids found (pids_of (survivors_of final st.captured))))
