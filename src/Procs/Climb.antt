-- ===== src/Procs/Climb.antt =====
-- The upward walks over parents: memmon_act.py, `_depth`, `_ancestors`, `_has_ancestor_in`,
-- `Engine._self_tree`, and memmon_pressure.py, `_self_and_ancestors`, `_has_heavy_ancestor` and
-- `heavy_roots`. A walk visits no pid twice, so one round for each process and one more are enough.
pub mod Above
use claude_memmon.Prelude.{
  ℕ, zero, suc, Bool, true, false, Option, none, some, List, [], ◌∷◌, ◌++◌, ◌&&◌, ◌||◌, not, leb,
  ltb, ◌==◌, if◌then◌else◌, length, keep, contains, is_some,
}
use claude_memmon.Procs.Walk.{Proc, find, pids}

-- `procs[pid].ppid`
unfoldable pub parent_of : List Proc → ℕ → Option ℕ
parent_of procs pid = elim (find pid procs) [ none ↦ none | some p ↦ p.ppid ]

-- `while cur in procs and cur not in out: out.add(cur); cur = procs[cur].ppid`, with fuel. The
-- newest pid is the head.
unfoldable pub climb : List Proc → ℕ → Option ℕ → List ℕ → List ℕ
climb procs zero cur out = out
climb procs (suc fuel) none out = out
climb procs (suc fuel) (some pid) out =
    let rest = climb procs fuel (parent_of procs pid) (pid ∷ out) in
    if is_some (find pid procs) && not (contains pid out) then rest else out

unfoldable pub full_climb : List Proc → Option ℕ → List ℕ
full_climb procs cur = climb procs (suc (length procs)) cur []

-- `_ancestors`
unfoldable pub ancestors : List Proc → ℕ → List ℕ
ancestors procs pid = full_climb procs (parent_of procs pid)

-- `_self_and_ancestors`
unfoldable pub self_and_ancestors : List Proc → ℕ → List ℕ
self_and_ancestors procs pid = full_climb procs (some pid)

-- The loop of `_has_ancestor_in` and of `_has_heavy_ancestor`, where `in_scope` is the latter's
-- scope: `some` is the first pid of `hit` that is met.
unfoldable pub seek : List Proc → (ℕ → Bool) → (ℕ → Bool) → ℕ → Option ℕ → List ℕ → Bool
seek procs hit in_scope zero cur seen = false
seek procs hit in_scope (suc fuel) none seen = false
seek procs hit in_scope (suc fuel) (some pid) seen =
    let rest = seek procs hit in_scope fuel (parent_of procs pid) (pid ∷ seen) in
    if is_some (find pid procs) && (not (contains pid seen) && in_scope pid)
    then hit pid || rest
    else false

unfoldable pub has_ancestor_in : List Proc → ℕ → List ℕ → Bool
has_ancestor_in procs pid set =
    seek procs (λ p. contains p set) (λ p. true) (suc (length procs)) (parent_of procs pid) []

unfoldable pub has_heavy_ancestor : List Proc → ℕ → List ℕ → (ℕ → Bool) → Bool
has_heavy_ancestor procs pid heavy in_scope =
    seek procs (λ p. contains p heavy) in_scope (suc (length procs)) (parent_of procs pid) []

-- `sorted` on pids.
unfoldable pub insert_pid : ℕ → List ℕ → List ℕ
insert_pid p [] = p ∷ []
insert_pid p (q ∷ qs) = if leb p q then p ∷ q ∷ qs else q ∷ insert_pid p qs

unfoldable pub sort_pids : List ℕ → List ℕ
sort_pids [] = []
sort_pids (p ∷ ps) = insert_pid p (sort_pids ps)

unfoldable pub heavy_roots : List Proc → List ℕ → (ℕ → Bool) → List ℕ
heavy_roots procs heavy in_scope =
    sort_pids (keep (λ pid. not (has_heavy_ancestor procs pid heavy in_scope)) heavy)

-- `_depth`: at most 4096 steps up to `top`.
unfoldable pub climb_depth : List Proc → ℕ → Option ℕ → ℕ → ℕ
climb_depth procs zero cur top = 0
climb_depth procs (suc rounds) none top = 0
climb_depth procs (suc rounds) (some pid) top =
    let rest = climb_depth procs rounds (parent_of procs pid) top in
    if pid == top || not (is_some (find pid procs)) then 0 else suc rest

unfoldable pub depth : List Proc → ℕ → ℕ → ℕ
depth procs pid top = climb_depth procs 4096 (some pid) top
