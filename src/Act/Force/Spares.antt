-- ===== src/Act/Force/Spares.antt =====
-- What a force may kill.
use claude_memmon.Prelude.{
  ℕ, ◌≤◌, ◌≡◌, String, Bool, true, false, Option, some, List, [], ◌∷◌, inl, inr, refl, arith,
  Bool-cases, Option-cases, ◌&&◌, not, ◌==◌, contains, is_some, str_eq,
}
use claude_memmon.Procs.Walk.{Proc, find}
use claude_memmon.Act.Engine.{sigkill, Sent, World, Engine, same, signal}
use claude_memmon.Act.Plan.{owner_at}
use claude_memmon.Act.Watch.Lawful.{Since}
use claude_memmon.Act.Report.{Named, ForceBody}
use claude_memmon.Act.Force.{reap_protects, is_own_root, protects, kill_all}

-- An entry of the list.
pub data Among (who : Named) : List Named → Type 0 where
  here : {ss : List Named} → Among who (who ∷ ss)
  there : {s : Named} {ss : List Named} → Among who ss → Among who (s ∷ ss)

-- A signal of a force: SIGKILL, to a survivor that the token names and that was read just
-- before, alive and unchanged; it is not pid 1 and not of memmon's own tree, it is a
-- visible process of the user, not the root of another owner, and for a reap it is still
-- unattributed and, where it had been selected, still selected.
pub record LawfulKill (w : World) (still_selected : Option (List Proc → ℕ → Bool))
    (body : ForceBody) (mine : List ℕ) (inv : List Proc) (roots : List (ℕ × String)) (lo : ℕ)
    (s : Sent) : Type 0 where
  pub kill : s.sig ≡ sigkill
  pub who : Named
  pub listed : Among who body.survivors
  pub pid_eq : s.pid ≡ who.pid
  pub not_init : (s.pid == 1) ≡ false
  pub not_mine : contains s.pid mine ≡ false
  pub row : Proc
  pub found : find s.pid inv ≡ some row
  pub visible : row.visible ≡ true
  pub own : (row.uid == w.uid) ≡ true
  pub no_root : is_some (owner_at s.pid roots) && not (is_own_root body.owner_root s.pid) ≡ false
  pub still_orphan :
      str_eq body.origin "reap" && reap_protects (w.partition_fn inv) still_selected inv who ≡ false
  pub not_before : lo ≤ s.at
  pub unchanged : same (find s.pid (w.table s.at)) who.start ≡ true

module _ (w : World) (still_selected : Option (List Proc → ℕ → Bool)) (body : ForceBody)
    (mine : List ℕ) (inv : List Proc) (roots : List (ℕ × String)) where
  kill_one :
      (s : Named) (p : Proc) (lo : ℕ) (old : List Sent) (e : Engine)
      → Among s body.survivors
      → find s.pid inv ≡ some p
      → protects w still_selected body mine inv roots s p ≡ false
      → lo ≤ e.time
      → Since (LawfulKill w still_selected body mine inv roots lo) old e.sent
      → (lo ≤ (signal w s.pid s.start sigkill e).0.time)
        × Since
            (LawfulKill w still_selected body mine inv roots lo)
            old
            (signal w s.pid s.start sigkill e).0.sent
  unfolding signal protects
  kill_one s p lo old e m found free t (new, eq, all) =
      elim (Bool-cases (same (find s.pid (w.table e.time)) s.start && w.kill_works e.time)) [
        | inr quiet ↦ rw quiet (omega arith, (new, eq, all))
        | inl sent ↦
            let k : Sent = record { pid = s.pid; sig = sigkill; at = e.time } in
            rw sent (
              omega arith,
              (
                k ∷ new,
                ground arith,
                (
                  record {
                    kill = refl;
                    who = s;
                    listed = m;
                    pid_eq = refl;
                    not_init = ground arith;
                    not_mine = ground arith;
                    row = p;
                    found = found;
                    visible = ground arith;
                    own = ground arith;
                    no_root = ground arith;
                    still_orphan = ground arith;
                    not_before = t;
                    unchanged = ground arith;
                  },
                  all,
                ),
              ),
            )
      ]

  pub kill_all-LawfulKill :
      (ss : List Named) (lo : ℕ) (old : List Sent) (e : Engine)
      → ((who : Named) → Among who ss → Among who body.survivors)
      → lo ≤ e.time
      → Since (LawfulKill w still_selected body mine inv roots lo) old e.sent
      → Since
          (LawfulKill w still_selected body mine inv roots lo)
          old
          (kill_all w still_selected body mine inv roots ss e).0.sent
  unfolding kill_all
  kill_all-LawfulKill [] lo old e sub t g = g
  kill_all-LawfulKill (s ∷ ss) lo old e sub t g =
      let sub' : (who : Named) → Among who ss → Among who body.survivors =
        λ who m. sub who (there m) in
      let gone = kill_all-LawfulKill ss lo old e sub' t g in
      let next = kill_all-LawfulKill ss lo old (signal w s.pid s.start sigkill e).0 sub' in
      elim (Option-cases (find s.pid inv)) [
        | inl none' ↦ rw (kill_all, none') gone
        | inr (p, found) ↦
            rw (kill_all, found)
              (elim (Bool-cases (same (some p) s.start)) [
                | inr other ↦ rw (kill_all, other) gone
                | inl same' ↦
                    rw (kill_all, same')
                      (elim (Bool-cases (protects w still_selected body mine inv roots s p)) [
                        | inl kept ↦ rw (kill_all, kept) gone
                        | inr free ↦
                            let (t', g') = kill_one s p lo old e (sub s here) found free t g in
                            rw (kill_all, free)
                              (elim (Bool-cases (signal w s.pid s.start sigkill e).1) [
                                | inl sent ↦ rw (kill_all, sent) (next t' g')
                                | inr quiet ↦ rw (kill_all, quiet) (next t' g')
                              ])
                      ])
              ])
      ]
