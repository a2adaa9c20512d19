-- ===== src/Act/Report/Claims.antt =====
-- What the outcome of a stop claims.
use claude_memmon.Prelude.{
  ℕ, ◌≡◌, ◌≢◌, Bool, true, false, List, [], ◌∷◌, ◌++◌, map, inl, inr, refl, arith, All, Bool-cases,
  ◌&&◌, keep,
}
use claude_memmon.Procs.Walk.{Proc, find}
use claude_memmon.Procs.Climb.{insert_pid, sort_pids}
use claude_memmon.Act.Engine.{Sent, same}
use claude_memmon.Act.Plan.{Captured}
use claude_memmon.Act.Watch.{Stop}
use claude_memmon.Act.Report.{
  Request, stopped, survivors_of, pids_of, add_pid, add_pids, runners_of, lease_pgids,
  target_ancestors, pgid_at, is_swept, is_grouped, sweep, remaining_of, left_row, report, Left,
  is_nil,
}

insert_pid-ne_nil : (p : ℕ) (ps : List ℕ) → insert_pid p ps ≢ []
unfolding insert_pid
insert_pid-ne_nil p [] h = cc
insert_pid-ne_nil p (q ∷ qs) h = ground arith

sort_pids-nil : (ps : List ℕ) → sort_pids ps ≡ [] → ps ≡ []
unfolding sort_pids
sort_pids-nil [] h = refl
sort_pids-nil (p ∷ ps) h = absurd (insert_pid-ne_nil p (sort_pids ps) h)

snoc-ne_nil : (p : ℕ) (ps : List ℕ) → ps ++ p ∷ [] ≢ []
snoc-ne_nil p [] h = cc
snoc-ne_nil p (q ∷ qs) h = cc

add_pid-ne_nil : (d : ℕ) (ps : List ℕ) → add_pid d ps ≢ []
unfolding add_pid
add_pid-ne_nil d [] h = ground arith
add_pid-ne_nil d (p ∷ ps) h = ground (arith, snoc-ne_nil d (p ∷ ps))

add_pids-nil : (ds ps : List ℕ) → add_pids ds ps ≡ [] → (ds ≡ []) × (ps ≡ [])
unfolding add_pids
add_pids-nil [] ps h = (refl, h)
add_pids-nil (d ∷ ds) ps h = absurd (add_pid-ne_nil d ps (add_pids-nil ds (add_pid d ps) h).1)

rows-nil : (f : ℕ → Left) (ps : List ℕ) → is_nil (map f ps) ≡ true → ps ≡ []
rows-nil f [] h = refl
rows-nil f (p ∷ ps) h = absurd (ground arith)

survivors-none :
    (final : List Proc) (cs : List Captured)
    → pids_of (survivors_of final cs) ≡ []
    → All (λ c. same (find c.pid final) c.start ≡ false) cs
unfolding survivors_of
survivors-none final [] h = tt
survivors-none final (c ∷ cs) h = elim (Bool-cases (same (find c.pid final) c.start)) [
  | inl up ↦ absurd (ground arith)
  | inr gone ↦ (gone, survivors-none final cs (rw gone at h))
]

swept-none :
    (test : Proc → Bool) (final : List Proc)
    → map (λ p. p.pid) (keep test final) ≡ []
    → All (λ p. test p ≡ false) final
swept-none test [] h = tt
swept-none test (p ∷ ps) h = elim (Bool-cases (test p)) [
  | inl left ↦ absurd (ground arith)
  | inr clear ↦ (clear, swept-none test ps (rw clear at h))
]

stopped-nil :
    (q : Request) (inv final : List Proc) (st : Stop) (found : List ℕ) (sent : List Sent)
    → (report q inv final st found sent).result ≡ stopped
    → remaining_of q inv final st found ≡ []
unfolding report
stopped-nil q inv final st found sent h =
    let pids = remaining_of q inv final st found in
    let row =
      left_row final (pids_of (survivors_of final st.captured))
        (map (λ r. r.pid) (runners_of q final st st.held)) sent in
    sort_pids-nil pids (rows-nil row (sort_pids pids) (ground arith))

-- A stop is called stopped only when, in the final snapshot, no process that it captured is
-- still there under its start, nothing below them was found, and every process of the targets'
-- groups is one that the stop leaves alone on purpose: memmon's own, an ancestor of a target, an
-- excluded or guarding one, dead or hidden, or of a kept owner.
pub report-stopped :
    (q : Request) (inv final : List Proc) (st : Stop) (found : List ℕ) (sent : List Sent)
    → (report q inv final st found sent).result ≡ stopped
    → All (λ c. same (find c.pid final) c.start ≡ false) st.captured
      × (found ≡ [])
      × All
          (λ p.
            (is_swept q (target_ancestors inv q.targets []) st p
              && is_grouped q
                  (map (pgid_at inv) q.targets)
                  (lease_pgids st.captured st.child_pgid)
                  p)
            ≡ false)
          final
unfolding remaining_of sweep
report-stopped q inv final st found sent h =
    let alive = pids_of (survivors_of final st.captured) in
    let runs = map (λ r. r.pid) (runners_of q final st st.held) in
    let (swept, rest) =
      add_pids-nil (sweep q inv final st) (add_pids runs (add_pids found alive))
        (stopped-nil q inv final st found sent h) in
    let (no_runs, below) = add_pids-nil runs (add_pids found alive) rest in
    let (no_found, no_alive) = add_pids-nil found alive below in
    (
      survivors-none final st.captured no_alive,
      no_found,
      swept-none
          (λ p.
            is_swept q (target_ancestors inv q.targets []) st p
            && is_grouped q (map (pgid_at inv) q.targets) (lease_pgids st.captured st.child_pgid) p)
          final swept,
    )
