-- ===== src/Act/Engine/Quiet.antt =====
-- Reading memmon's own tree signals nothing.
use claude_memmon.Prelude.{
  ℕ, zero, suc, ◌≤◌, ◌≡◌, Option, none, some, List, [], ◌∷◌, inl, inr, refl, arith, Bool-cases,
  ◌||◌, ◌==◌, contains,
}
use claude_memmon.Procs.Walk.{find}
use claude_memmon.Act.Engine.{
  World, Engine, later, self_tree, self_tree_loop, other_parent, pid_limit,
}

self_tree_loop-quiet :
    (w : World) (fuel : ℕ) (cur : Option ℕ) (out : List ℕ) (e : Engine)
    → ((self_tree_loop w fuel cur out e).0.sent ≡ e.sent)
      × (e.time ≤ (self_tree_loop w fuel cur out e).0.time)
unfolding self_tree_loop
self_tree_loop-quiet w zero cur out e = (refl, omega arith)
self_tree_loop-quiet w (suc fuel) none out e = (refl, omega arith)
self_tree_loop-quiet w (suc fuel) (some pid) out e =
    let (quiet, grows) =
      self_tree_loop-quiet w fuel (other_parent (find pid (w.table e.time))) (pid ∷ out)
        (later e) in
    elim (Bool-cases (pid == 0 || contains pid out)) [
      | inl over ↦ rw over (refl, omega arith)
      | inr more ↦ rw more (quiet, omega arith)
    ]

pub self_tree-quiet :
    (w : World) (e : Engine) → ((self_tree w e).0.sent ≡ e.sent) × (e.time ≤ (self_tree w e).0.time)
unfolding self_tree
self_tree-quiet w e = self_tree_loop-quiet w pid_limit (some w.own_pid) [] e
