-- ===== src/Pressure/Suggest/Rows.antt =====
-- memmon_pressure.py, the loops of `suggestions`.
pub mod Worthy
use claude_memmon.Prelude.{
  ℕ, ◌-◌, ◌/◌, String, Bool, true, false, Option, none, some, List, [], ◌∷◌, ◌++◌, ◌||◌, not,
  if◌then◌else◌, take, keep, contains, sort_by,
}
use claude_memmon.Procs.Walk.{Proc, find}
use claude_memmon.Procs.Climb.{self_and_ancestors, heavy_roots}
use claude_memmon.Act.Engine.{Lease}
use claude_memmon.Pressure.Series.{Point, series_stats}
use claude_memmon.Pressure.History.{JobId, key_of, Root, points_of, total_footprint}
use claude_memmon.Pressure.Suggest.{
  Setting, Owner, Offer, Row, Listed, heavy_pids, managed, offer_of, settled, is_small, start_ns,
  members_of, is_one_of, suggest_max,
}

abbrev pub listed_for : (JobId → Option Listed) → Option JobId → Option Listed
listed_for s1 none = none
listed_for s1 (some job) = s1 job

abbrev pub history_of : List Root → Option JobId → List Point
history_of roots none = []
history_of roots (some job) = points_of job roots

-- The row of one heavy root of an owner, without its place.
unfoldable pub row_of :
    Setting
    → List Proc
    → List (ℕ × String)
    → List Root
    → (JobId → Option Listed)
    → Owner
    → List ℕ
    → ℕ
    → Option Row
row_of c procs roots hist s1 o mine pid =
    let fp = total_footprint procs (members_of procs roots mine pid) in
    elim (find pid procs) [
      | none ↦ none
      | some p ↦
          if is_small c fp
          then none
          else elim (offer_of c procs roots o (listed_for s1 (key_of p)) p) [
            | none ↦ none
            | some f ↦ some (record {
              pid = pid;
              job = key_of p;
              owner_id = o.owner_id;
              offer = settled c f;
              footprint = fp;
              stats = series_stats (history_of hist (key_of p));
              age_s = (c.now - start_ns p.start) / 1000000000;
            })
          ]
    ]

unfoldable pub rows_of :
    Setting
    → List Proc
    → List (ℕ × String)
    → List Root
    → (JobId → Option Listed)
    → Owner
    → List ℕ
    → List ℕ
    → List Row
rows_of c procs roots hist s1 o mine [] = []
rows_of c procs roots hist s1 o mine (pid ∷ pids) =
    let rest = rows_of c procs roots hist s1 o mine pids in
    elim (row_of c procs roots hist s1 o mine pid) [ none ↦ rest | some r ↦ r ∷ rest ]

-- `SKIP_OWNER_KINDS`, and memmon itself.
abbrev pub is_skipped : Owner → Bool
is_skipped o = is_one_of o.kind ("job" ∷ "service" ∷ []) || o.is_self

-- An owner's members but for the managed jobs and memmon's own ancestors.
unfoldable pub mine_of : Setting → List Proc → List Lease → Owner → List ℕ
mine_of c procs leases o =
    keep
      (λ pid.
        not (
          contains pid (managed procs leases)
          || contains pid (self_and_ancestors procs c.self_pid)))
      o.members

unfoldable pub owner_rows :
    Setting
    → List Proc
    → List (ℕ × String)
    → List Lease
    → List Root
    → (JobId → Option Listed)
    → Owner
    → List Row
owner_rows c procs roots leases hist s1 o =
    let mine = mine_of c procs leases o in
    if is_skipped o
    then []
    else rows_of c procs roots hist s1 o mine
        (heavy_roots procs (heavy_pids c procs mine) (λ pid. contains pid mine))

unfoldable pub all_rows :
    Setting
    → List Proc
    → List (ℕ × String)
    → List Lease
    → List Root
    → (JobId → Option Listed)
    → List Owner
    → List Row
all_rows c procs roots leases hist s1 [] = []
all_rows c procs roots leases hist s1 (o ∷ os) =
    owner_rows c procs roots leases hist s1 o ++ all_rows c procs roots leases hist s1 os

-- `suggestions`
unfoldable pub suggestions :
    Setting
    → List Proc
    → List (ℕ × String)
    → List Lease
    → List Root
    → (JobId → Option Listed)
    → List Owner
    → List Row
suggestions c procs roots leases hist s1 owners =
    take suggest_max
      (sort_by (λ (r : Row). r.footprint) (all_rows c procs roots leases hist s1 owners))
