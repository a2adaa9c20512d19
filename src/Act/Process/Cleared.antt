-- ===== src/Act/Process/Cleared.antt =====
-- What holds when `_process` signals anything.
use claude_memmon.Prelude.{
  ℕ, suc, ◌≤◌, ◌≡◌, ◌≢◌, String, true, false, none, some, List, [], ◌∷◌, inl, inr, refl, sym, subst,
  arith, All, Bool-cases, Option-cases, ◌==◌, contains, keep,
}
use claude_memmon.Procs.Walk.{Proc}
use claude_memmon.Procs.Climb.{full_climb}
use claude_memmon.Runner.Footprint.{same_start}
use claude_memmon.Act.Engine.{Start, Sent, Lease, Partition, World, Engine, same, later, self_tree}
use claude_memmon.Act.Watch.{Stop}
use claude_memmon.Act.Watch.Lawful.{Known, planned, found, LawfulStop, Since}
use claude_memmon.Act.Watch.Ends.{terminate-LawfulStop, terminate-total}
use claude_memmon.Act.Engine.Clock.{Advances}
use claude_memmon.Act.Report.{Request, Outcome, graceful, conclude}
use claude_memmon.Act.Engine.Quiet.{self_tree-quiet}
use claude_memmon.Act.Entry.{
  Body, no_fuel, row_at, all_owned, target_gone, guard, reaches, refusal_of, left_over, is_left,
}
use claude_memmon.Act.Process.{request, process_rows, process}

-- The target and the owner's root are alive in the snapshot with the start that the token names,
-- a chain of live parents leads from the one to the other, and the target is a visible process of
-- the user, neither pid 1 nor of memmon's own tree nor an ancestor of the root; the tests that
-- depend on the action pass for some leases.
pub record Cleared (w : World) (action : String) (body : Body) (inv : List Proc) (mine : List ℕ)
    : Type 0 where
  pub target : Proc
  pub root : Proc
  pub target_found : row_at inv body.target_pid ≡ some target
  pub root_found : row_at inv body.root_pid ≡ some root
  pub target_same : same (some target) body.target_start ≡ true
  pub root_same : same (some root) body.root_start ≡ true
  pub chain : reaches inv 4096 root.pid target ≡ true
  pub not_init : (target.pid == 1) ≡ false
  pub visible : target.visible ≡ true
  pub own : (target.uid == w.uid) ≡ true
  pub not_mine : contains target.pid mine ≡ false
  pub not_above : contains target.pid (full_climb inv root.ppid) ≡ false
  pub leases : List Lease
  pub allowed : refusal_of action body (w.partition_fn inv) leases target root ≡ none

-- A signal of a stop of the target that is cleared.
pub record Signalled (w : World) (action : String) (body : Body) (inv : List Proc) (mine : List ℕ)
    (lo : ℕ) (s : Sent) : Type 0 where
  pub cleared : Cleared w action body inv mine
  pub lawful : LawfulStop w mine inv (w.partition_fn inv) (cleared.target.pid ∷ []) lo s

both :
    (w : World) (action : String) (body : Body) (inv : List Proc) (mine : List ℕ) (lo : ℕ)
    (ss : List Sent) (c : Cleared w action body inv mine)
    → All (LawfulStop w mine inv (w.partition_fn inv) (c.target.pid ∷ []) lo) ss
    → All (Signalled w action body inv mine lo) ss
both w action body inv mine lo [] c all = tt
both w action body inv mine lo (s ∷ ss) c (l, all) =
    (record { cleared = c; lawful = l }, both w action body inv mine lo ss c all)

guard-Cleared :
    (w : World) (action : String) (body : Body) (inv : List Proc) (mine : List ℕ)
    (leases : List Lease) (tp rp : Proc)
    → row_at inv body.target_pid ≡ some tp
    → row_at inv body.root_pid ≡ some rp
    → same (some tp) body.target_start ≡ true
    → same (some rp) body.root_start ≡ true
    → guard w action body inv (w.partition_fn inv) mine leases tp rp ≡ none
    → (c : Cleared w action body inv mine) × (c.target.pid ≡ tp.pid)
unfolding guard
guard-Cleared w action body inv mine leases tp rp ft fr st sr h = (
  record {
    target = tp;
    root = rp;
    target_found = ft;
    root_found = fr;
    target_same = st;
    root_same = sr;
    chain = ground arith;
    not_init = ground arith;
    visible = ground arith;
    own = ground arith;
    not_mine = ground arith;
    not_above = ground arith;
    leases = leases;
    allowed = ground arith;
  },
  refl,
)

left_over-fueled : (part : Partition) (rows : List Proc) → left_over part rows ≢ no_fuel
unfolding left_over
left_over-fueled part rows h = elim (Bool-cases (all_owned part rows)) [
  | inl owned ↦ ground arith
  | inr orphan ↦ ground arith
]

target_gone-quiet :
    (w : World) (action : String) (body : Body) (inv : List Proc) (e : Engine)
    → ((target_gone w action body inv e).0.sent ≡ e.sent)
      × ((target_gone w action body inv e).1 ≢ no_fuel)
unfolding target_gone
target_gone-quiet w action body inv e =
    let (quiet, grows) = self_tree-quiet w e in
    let rows = keep (is_left w body.target_pgid (self_tree w e).1) inv in
    (ground arith, λ h. let n = left_over-fueled (w.partition_fn inv) rows in ground arith)

Known-earlier :
    {w : World} {mine : List ℕ} {inv : List Proc} {part : Partition} {targets : List ℕ} {lo hi : ℕ}
    {pid : ℕ} {start : Start}
    → lo ≤ hi
    → Known w mine inv part targets hi pid start
    → Known w mine inv part targets lo pid start
Known-earlier h (planned depth m) = planned depth m
Known-earlier h (found seen parent since stop row after k up below there alive eq free) =
    found seen parent since stop row (omega (arith, h, after)) (Known-earlier h k) up below there
      alive eq free

pub LawfulStop-earlier :
    (w : World) (mine : List ℕ) (inv : List Proc) (part : Partition) (targets : List ℕ) (lo hi : ℕ)
    (ss : List Sent)
    → lo ≤ hi
    → All (LawfulStop w mine inv part targets hi) ss
    → All (LawfulStop w mine inv part targets lo) ss
LawfulStop-earlier w mine inv part targets lo hi [] h all = tt
LawfulStop-earlier w mine inv part targets lo hi (s ∷ ss) h (l, all) = (
  record {
    term = l.term;
    spared = l.spared;
    start = l.start;
    known = Known-earlier h l.known;
    not_before = omega (arith, l.not_before);
    unchanged = l.unchanged;
  },
  LawfulStop-earlier w mine inv part targets lo hi ss h all,
)

conclude-sent :
    (w : World) (q : Request) (inv : List Proc) (before : List Sent) (e : Engine) (st : Stop)
    → (conclude w q inv before e st).0.sent ≡ e.sent
unfolding conclude
conclude-sent w q inv before e st = refl

-- A stop with enough fuel ends, and what it sent is lawful.
pub graceful-LawfulStop :
    (w : World) (q : Request) (inv : List Proc) (e : Engine)
    → Advances w
    → (r : Engine × Outcome) × (graceful w (suc w.grace_s) q inv e ≡ some r)
      × Since (LawfulStop w q.mine inv q.part q.targets e.time) e.sent r.0.sent
unfolding graceful
graceful-LawfulStop w q inv e a =
    let ((e', st), ends) = terminate-total w q.mine inv q.part q.targets e a in
    let lawful = terminate-LawfulStop w q.mine (suc w.grace_s) inv q.part q.targets e ends in
    (
      conclude w q inv e.sent e' st,
      rw (graceful, ends) refl,
      rw (conclude-sent w q inv e.sent e' st) lawful,
    )

pub Since-quiet : {P : Sent → Type 0} {old now : List Sent} → now ≡ old → Since P old now
Since-quiet eq = ([], eq, tt)

process_rows-Signalled :
    (w : World) (action : String) (body : Body) (inv : List Proc) (e : Engine) (tp rp : Proc)
    → Advances w
    → row_at inv body.target_pid ≡ some tp
    → row_at inv body.root_pid ≡ some rp
    → same (some tp) body.target_start ≡ true
    → same (some rp) body.root_start ≡ true
    → ((process_rows w (suc w.grace_s) action body inv e tp rp).1 ≢ no_fuel)
      × Since
          (Signalled w action body inv (self_tree w e).1 e.time)
          e.sent
          (process_rows w (suc w.grace_s) action body inv e tp rp).0.sent
unfolding process_rows
process_rows-Signalled w action body inv e tp rp a ft fr st sr =
    let part = w.partition_fn inv in
    let (e1, mine) = self_tree w e in
    let (quiet, grows) = self_tree-quiet w e in
    let q : Request = request action part mine tp rp in
    elim (Option-cases (guard w action body inv part mine (w.leases e1.time) tp rp)) [
      | inr (why, no') ↦ rw (process_rows, no') (λ h. ground arith, Since-quiet quiet)
      | inl clear ↦
          let ((e2, out), ends, (new, eq, lawful)) = graceful-LawfulStop w q inv (later e1) a in
          let (c, own) =
            guard-Cleared w action body inv mine (w.leases e1.time) tp rp ft fr st sr clear in
          let early =
            LawfulStop-earlier w mine inv part (tp.pid ∷ []) e.time (later e1).time new
              (omega arith) lawful in
          rw (process_rows, clear, ends)
            (
              λ h. ground arith,
              (
                new,
                ground arith,
                both w action body inv mine e.time new c (
                    subst (λ t. All (LawfulStop w mine inv part (t ∷ []) e.time) new) (sym own)
                      early),
              ),
            )
    ]

same_lem :
    (p : Proc) (start : Start)
    → p.zombie ≡ false
    → same_start p.start start ≡ true
    → same (some p) start ≡ true
unfolding same
same_lem p start dead h = ground arith

-- Stopping a job, a server or a session, whatever the token says and whatever the engine reads:
-- enough rounds are given, and every signal is a SIGTERM to a process that was re-read just then
-- and found unchanged, outside memmon's own tree, and is sent only when the first snapshot has
-- the target and its owner's root as the token names them, joined by live parents, and the tests
-- for the action pass. The clock advances between readings.
pub process-Signalled :
    (w : World) (action : String) (body : Body) (e : Engine)
    → Advances w
    → ((process w (suc w.grace_s) action body e).1 ≢ no_fuel)
      × Since
          (Signalled w action body (w.table e.time) (self_tree w (later e)).1 (later e).time)
          e.sent
          (process w (suc w.grace_s) action body e).0.sent
unfolding process
process-Signalled w action body e a =
    let inv = w.table e.time in
    let (quiet, fueled) = target_gone-quiet w action body inv (later e) in
    elim (Option-cases (row_at inv body.target_pid)) [
      | inl gone ↦ rw (process, gone) (fueled, Since-quiet quiet)
      | inr (tp, ft) ↦
          rw (process, ft)
            (elim (Bool-cases tp.zombie) [
              | inl dead ↦ rw (process, dead) (fueled, Since-quiet quiet)
              | inr up ↦
                  rw (process, up)
                    (elim (Bool-cases (same_start tp.start body.target_start)) [
                      | inr changed ↦ rw (process, changed) (λ h. ground arith, Since-quiet refl)
                      | inl kept ↦
                          rw (process, kept)
                            (elim (Option-cases (row_at inv body.root_pid)) [
                              | inl no_root ↦
                                  rw (process, no_root) (λ h. ground arith, Since-quiet refl)
                              | inr (rp, fr) ↦
                                  rw (process, fr)
                                    (elim (Bool-cases (same (some rp) body.root_start)) [
                                      | inr moved ↦
                                          rw (process, moved) (λ h. ground arith, Since-quiet refl)
                                      | inl own ↦
                                          rw (process, own)
                                            (process_rows-Signalled w action body inv (later e) tp
                                              rp a ft fr (same_lem tp body.target_start up kept)
                                              own)
                                    ])
                            ])
                    ])
            ])
    ]
