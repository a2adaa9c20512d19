-- ===== src/Act/Force/Lawful.antt =====
-- The signals of a whole force.
use claude_memmon.Prelude.{
  ℕ, zero, suc, ◌+◌, ◌≡◌, String, Bool, Option, some, List, [], ◌∷◌, inl, inr, refl, arith,
  Bool-cases, Option-cases, ◌&&◌, leb, map,
}
use claude_memmon.Procs.Walk.{Proc}
use claude_memmon.Act.Engine.{World, Engine, later, alive, self_tree}
use claude_memmon.Act.Engine.Quiet.{self_tree-quiet}
use claude_memmon.Act.Watch.{dedupe}
use claude_memmon.Act.Watch.Lawful.{Since}
use claude_memmon.Act.Report.{Named, ForceBody}
use claude_memmon.Act.Force.{
  kill_all, Ident, still_alive, wait, Waiting, forced, force, ForceOutcome, waiting_of, bad_origin,
  force_wait_s, no_ids,
}
use claude_memmon.Act.Force.Spares.{LawfulKill, kill_all-LawfulKill}

still_alive-quiet :
    (w : World) (ids : List Ident) (e : Engine) → (still_alive w ids e).0.sent ≡ e.sent
unfolding still_alive alive
still_alive-quiet w [] e = refl
still_alive-quiet w ((pid, start) ∷ ids) e = still_alive-quiet w ids (later e)

wait-quiet :
    (w : World) (fuel deadline : ℕ) (live waiting : List Ident) (e : Engine) (r : Waiting)
    → wait w fuel deadline live waiting e ≡ some r
    → r.engine.sent ≡ e.sent
unfolding wait
wait-quiet w zero deadline live waiting e r h = absurd (ground arith)
wait-quiet w (suc fuel) deadline live waiting e r h =
    let s1 = still_alive w live (later e) in
    let s2 = still_alive w waiting s1.0 in
    let q1 = still_alive-quiet w live (later e) in
    let q2 = still_alive-quiet w waiting s1.0 in
    elim (Bool-cases (no_ids live && no_ids waiting)) [
      | inl over ↦ ground arith
      | inr more ↦ elim (Bool-cases (leb deadline (w.mono e.time))) [
        | inl late ↦ ground arith
        | inr early ↦ let q3 = wait-quiet w fuel deadline s1.1 s2.1 s2.0 r (ground arith) in cc
      ]
    ]

-- Every signal of a force is a SIGKILL to a survivor that the token names, and it is lawful with
-- respect to the snapshot that the force takes after it has read memmon's own tree, and to the
-- roots it finds there.
pub force-LawfulKill :
    (w : World) (fuel : ℕ) (origin : Option String) (still_selected : Option (List Proc → ℕ → Bool))
    (body : ForceBody) (e e' : Engine) (out : ForceOutcome)
    → force w fuel origin still_selected body e ≡ forced e' out
    → Since
        (LawfulKill w still_selected body
          (self_tree w e).1
          (w.table (self_tree w e).0.time)
          (w.root_rule_fn
            (w.table (self_tree w e).0.time)
            (dedupe (map (λ (s : Named). s.pid) body.survivors)))
          e.time)
        e.sent
        e'.sent
unfolding force
force-LawfulKill w fuel origin still_selected body e e' out h =
    let (e1, mine) = self_tree w e in
    let inv = w.table e1.time in
    let roots = w.root_rule_fn inv (dedupe (map (λ (s : Named). s.pid) body.survivors)) in
    let (e2, kills) = kill_all w still_selected body mine inv roots body.survivors (later e1) in
    let (quiet, grows) = self_tree-quiet w e in
    let lawful =
      kill_all-LawfulKill w still_selected body mine inv roots body.survivors e.time e.sent
        (later e1) (λ who m. m) (omega arith) ([], quiet, tt) in
    elim (Bool-cases (bad_origin origin body.origin)) [
      | inl wrong ↦ absurd (ground arith)
      | inr fine ↦
          elim (Option-cases (
            wait w fuel (w.mono e2.time + force_wait_s) kills.live
              (waiting_of kills.live body.runners) (later e2))) [
                | inl none' ↦ absurd (ground arith)
                | inr (r, waited) ↦
                    let still =
                      wait-quiet w fuel (w.mono e2.time + force_wait_s) kills.live
                        (waiting_of kills.live body.runners) (later e2) r waited in
                    let eq : e'.sent ≡ e2.sent = ground arith in rw eq lawful
              ]
    ]
