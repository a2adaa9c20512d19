-- ===== src/Act/Force.antt =====
-- memmon_act.py, `_force` and `_unlisted`: SIGKILL for the survivors that a token names. Program
-- names and memory numbers are left out.
pub mod Spares
pub mod Lawful
pub mod Ends
use claude_memmon.Prelude.{
  ℕ, zero, suc, ◌+◌, ◌-◌, ◌==◌, min, String, Bool, true, false, Option, none, some, List, [], ◌∷◌,
  ◌++◌, map, ◌&&◌, ◌||◌, not, leb, ltb, str_eq, is_some, if◌then◌else◌, length, keep, contains,
}
use claude_memmon.Procs.Walk.{Proc, find}
use claude_memmon.Act.Engine.{
  Start, sigkill, Lease, Partition, World, Engine, same, later, signal, alive, self_tree,
}
use claude_memmon.Act.Plan.{owner_at}
use claude_memmon.Act.Watch.{dedupe}
use claude_memmon.Act.Report.{
  Role, survivor, runner, observed, Named, Runner, ForceBody, Result, force_stopped, partial,
}
use claude_memmon.Runner.Footprint.{same_start}

abbrev pub force_wait_s : ℕ
force_wait_s = 3000000000

pub data SkipReason : Type 0 where
  is_protected signal_failed : SkipReason

-- An identity `(pid, start)`.
abbrev pub Ident : Type 0
Ident = ℕ × Start

-- What the loop over the survivors collects.
pub record Kills : Type 0 where
  pub live : List Ident
  pub skipped : List (Ident × SkipReason)

abbrev unknown_owner : Partition → Option String → Bool
unknown_owner part none = false
unknown_owner part (some oid) = str_eq (part.kind_of oid) "unknown"

-- `origin == "reap"`: the partition is made, and a selected survivor must still be selected.
unfoldable pub reap_protects : Partition → Option (List Proc → ℕ → Bool) → List Proc → Named → Bool
reap_protects part still_selected inv s =
    not (unknown_owner part (part.owner_of s.pid))
    || s.selected && not (elim still_selected [ none ↦ false | some f ↦ f inv s.pid ])

abbrev is_own_root : Option ℕ → ℕ → Bool
is_own_root none pid = false
is_own_root (some r) pid = r == pid

unfoldable pub protects :
    World
    → Option (List Proc → ℕ → Bool)
    → ForceBody
    → List ℕ
    → List Proc
    → List (ℕ × String)
    → Named
    → Proc
    → Bool
protects w still_selected body mine inv roots s p =
    (s.pid == 1 || contains s.pid mine)
    || ((not p.visible || not (p.uid == w.uid))
        || (is_some (owner_at s.pid roots) && not (is_own_root body.owner_root s.pid)
            || str_eq body.origin "reap"
              && reap_protects (w.partition_fn inv) still_selected inv s))

-- The loop over the survivors of the token.
unfoldable pub kill_all :
    World
    → Option (List Proc → ℕ → Bool)
    → ForceBody
    → List ℕ
    → List Proc
    → List (ℕ × String)
    → List Named
    → Engine
    → Engine × Kills
kill_all w still_selected body mine inv roots [] e = (e, record { live = []; skipped = [] })
kill_all w still_selected body mine inv roots (s ∷ ss) e =
    let gone = kill_all w still_selected body mine inv roots ss e in
    let (e', sent) = signal w s.pid s.start sigkill e in
    let next = kill_all w still_selected body mine inv roots ss e' in
    elim (find s.pid inv) [
      | none ↦ gone
      | some p ↦
          if not (same (some p) s.start)
          then gone
          else if protects w still_selected body mine inv roots s p
          then (
            gone.0,
            record (gone.1) { skipped = ((s.pid, s.start), is_protected) ∷ gone.1.skipped },
          )
          else if sent
          then (next.0, record (next.1) { live = (s.pid, s.start) ∷ next.1.live })
          else (
            next.0,
            record (next.1) { skipped = ((s.pid, s.start), signal_failed) ∷ next.1.skipped },
          )
    ]

-- `[(p, s) for p, s in live if self._alive(p, s)]`
unfoldable pub still_alive : World → List Ident → Engine → Engine × List Ident
still_alive w [] e = (e, [])
still_alive w ((pid, start) ∷ ids) e =
    let (e1, up) = alive w pid start e in
    let (e2, rest) = still_alive w ids e1 in (e2, if up then (pid, start) ∷ rest else rest)

abbrev pub no_ids : List Ident → Bool
no_ids [] = true
no_ids (i ∷ is) = false

pub record Waiting : Type 0 where
  pub engine : Engine
  pub live : List Ident
  pub waiting : List Ident

-- The waiting loop; `none` where the fuel ran out first.
unfoldable pub wait : World → ℕ → ℕ → List Ident → List Ident → Engine → Option Waiting
wait w zero deadline live waiting e = none
wait w (suc fuel) deadline live waiting e =
    let (e1, live') = still_alive w live (later e) in
    let (e2, waiting') = still_alive w waiting e1 in
    let again = wait w fuel deadline live' waiting' e2 in
    if no_ids live && no_ids waiting
    then some (record { engine = e; live = live; waiting = waiting })
    else if leb deadline (w.mono e.time)
    then some (record { engine = later e; live = live; waiting = waiting })
    else again

-- `(pid, start)` of an identity list.
unfoldable pub has_ident : ℕ → Start → List Ident → Bool
has_ident pid start [] = false
has_ident pid start ((p, s) ∷ ids) = p == pid && same_start s start || has_ident pid start ids

abbrev waits_for : List Ident → Runner → Bool
waits_for killed r = elim r.child_pid [ none ↦ false | some c ↦ has_ident c r.child_start killed ]

-- The wrappers that exit once force has killed their child.
unfoldable pub waiting_of : List Ident → List Runner → List Ident
waiting_of killed runners = map (λ r. (r.pid, r.start)) (keep (waits_for killed) runners)

pub record ForceRow : Type 0 where
  pub pid : ℕ
  pub start : Start
  pub role : Role
  pub signalled : Bool

unfoldable pub alive_ids : List Proc → List Ident → List Ident
alive_ids final ids = keep (λ (i : Ident). same (find i.0 final) i.1) ids

-- Observed processes that the token could not list, counted again and never more than there were.
unfoldable pub unlisted : World → List Proc → ForceBody → List ℕ → List ForceRow → ℕ
unlisted w final body mine rows =
    let total = body.observed_total - length body.observed in
    let named =
      map (λ (o : Ident). o.0) body.observed
      ++ (map (λ (r : ForceRow). r.pid) rows ++ map (λ (s : Named). s.pid) body.survivors) in
    if total == 0
    then 0
    else min total (
        length (
          keep
            (λ (p : Proc).
              (contains p.pgid body.observed_pgids && not (contains p.pid named))
              && (not (contains p.pid mine) && (p.visible && (not p.zombie && p.uid == w.uid))))
            final))

pub record ForceOutcome : Type 0 where
  pub result : Result
  pub exited : ℕ
  pub killed : ℕ
  pub exited_unsignalled : ℕ
  pub remaining : List ForceRow
  pub named : ℕ
  pub observed_unlisted : ℕ

abbrev no_rows : List ForceRow → Bool
no_rows [] = true
no_rows (r ∷ rs) = false

abbrev force_row : Role → List Ident → Ident → ForceRow
force_row role sent i = record {
  pid = i.0;
  start = i.1;
  role = role;
  signalled = has_ident i.0 i.1 sent;
}

unfoldable pub gone : List Proc → List Ident → ℕ
gone final ids = length (keep (λ (i : Ident). not (same (find i.0 final) i.1)) ids)

unfoldable pub force_report :
    World → ForceBody → List ℕ → List Proc → List Ident → Kills → ForceOutcome
force_report w body mine final still kills =
    let skipped = map (λ (k : Ident × SkipReason). k.0) kills.skipped in
    let rows =
      map (force_row survivor kills.live) (alive_ids final (still ++ skipped))
      ++ (map (force_row observed []) (alive_ids final body.observed)
          ++ map (force_row runner [])
              (alive_ids final (map (λ (r : Runner). (r.pid, r.start)) body.runners))) in
    let extra = unlisted w final body mine rows in
    record {
      result = if no_rows rows && extra == 0 then force_stopped else partial;
      exited = gone final (map (λ (s : Named). (s.pid, s.start)) body.survivors);
      killed = gone final kills.live;
      exited_unsignalled = gone final skipped;
      remaining = rows;
      named = length body.survivors;
      observed_unlisted = extra;
    }

pub data Forced : Type 0 where
  wrong_action out_of_fuel : Forced
  forced : Engine → ForceOutcome → Forced

abbrev bad_origin : Option String → String → Bool
bad_origin none origin = str_eq origin "reap"
bad_origin (some o) origin = not (str_eq origin o)

-- `_force`. `origin` is none where the caller gave none.
unfoldable pub force :
    World → ℕ → Option String → Option (List Proc → ℕ → Bool) → ForceBody → Engine → Forced
force w fuel origin still_selected body e =
    let (e1, mine) = self_tree w e in
    let inv = w.table e1.time in
    let roots = w.root_rule_fn inv (dedupe (map (λ (s : Named). s.pid) body.survivors)) in
    let (e2, kills) = kill_all w still_selected body mine inv roots body.survivors (later e1) in
    let waiting = waiting_of kills.live body.runners in
    if bad_origin origin body.origin
    then wrong_action
    else elim (wait w fuel (w.mono e2.time + force_wait_s) kills.live waiting (later e2)) [
      | none ↦ out_of_fuel
      | some r ↦
          forced (later r.engine) (force_report w body mine (w.table r.engine.time) r.live kills)
    ]
