-- ===== src/Act/Process.antt =====
-- memmon_act.py, `_process`. The watch for a restarted worker is left out.
pub mod Cleared
use claude_memmon.Prelude.{
  ℕ, String, Bool, true, false, Option, none, some, List, [], ◌∷◌, not, if◌then◌else◌,
}
use claude_memmon.Procs.Walk.{Proc, find}
use claude_memmon.Runner.Footprint.{same_start}
use claude_memmon.Act.Engine.{Start, Lease, Partition, World, Engine, same, later, self_tree}
use claude_memmon.Act.Plan.{owner_at}
use claude_memmon.Act.Report.{Request, Outcome, ForceBody, graceful}
use claude_memmon.Act.Entry.{
  Refusal, target_changed, ownership_changed, Body, Done, refused, acted, no_fuel, row_at,
  target_gone, guard,
}

abbrev pub request : String → Partition → List ℕ → Proc → Proc → Request
request action part mine tp rp = record {
  part = part;
  targets = tp.pid ∷ [];
  owner_id = owner_at rp.pid part.root_owner;
  origin = action;
  owner_root = some rp.pid;
  selected = [];
  mine = mine;
}

abbrev pub finish : Engine → Option (Engine × Outcome) → Engine × Done
finish e none = (e, no_fuel)
finish e (some (e', out)) = (e', acted out)

-- `_process` with the target's row and the root's, once they are the ones that the token names. The
-- readings of memmon's own tree and of the leases are counted for every action and every refusal.
unfoldable pub process_rows :
    World → ℕ → String → Body → List Proc → Engine → Proc → Proc → Engine × Done
process_rows w fuel action body inv e tp rp =
    let part = w.partition_fn inv in
    let (e1, mine) = self_tree w e in
    elim (guard w action body inv part mine (w.leases e1.time) tp rp) [
      | some why ↦ (e1, refused why)
      | none ↦ finish e1 (graceful w fuel (request action part mine tp rp) inv (later e1))
    ]

-- `_process`
unfoldable pub process : World → ℕ → String → Body → Engine → Engine × Done
process w fuel action body e =
    let inv = w.table e.time in
    let e1 = later e in
    elim (row_at inv body.target_pid) [
      | none ↦ target_gone w action body inv e1
      | some tp ↦
          if tp.zombie
          then target_gone w action body inv e1
          else if not (same_start tp.start body.target_start)
          then (e1, refused target_changed)
          else elim (row_at inv body.root_pid) [
            | none ↦ (e1, refused ownership_changed)
            | some rp ↦
                if not (same (some rp) body.root_start)
                then (e1, refused ownership_changed)
                else process_rows w fuel action body inv e1 tp rp
          ]
    ]
