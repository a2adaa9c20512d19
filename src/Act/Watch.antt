-- ===== src/Act/Watch.antt =====
-- memmon_act.py, `_graceful` up to its report: the first signals, `discover`, `release` and the
-- polling loop. Each call of the source reads the machine anew, in the order of the code.
pub mod Lawful
pub mod Rounds
pub mod Ends
use claude_memmon.Prelude.{
  ℕ, zero, suc, ◌+◌, ◌==◌, String, Bool, true, false, Option, none, some, List, [], ◌∷◌, ◌++◌, ◌&&◌,
  ◌||◌, not, leb, str_eq, is_some, if◌then◌else◌, keep, contains, map,
}
use claude_memmon.Procs.Walk.{Proc, find, descendants}
use claude_memmon.Act.Engine.{
  Start, sigterm, Lease, Partition, World, Engine, same, later, signal, alive, lease_of, holds,
}
use claude_memmon.Act.Plan.{
  Captured, Kept, Held, Plan, plan, has_captured, add_kept, start_at, set_captured,
}

-- `child_pgid[wrapper]`
pub record Group : Type 0 where
  pub wrapper : ℕ
  pub child : ℕ
  pub pgid : ℕ

-- What the stop changes as it goes on. `stop` stays as planned.
pub record Stop : Type 0 where
  pub stop : List ℕ
  pub captured : List Captured
  pub kept : List Kept
  pub held : List Held
  pub ever_held : List Held
  pub child_pgid : List Group
  pub excluded : List ℕ

unfoldable pub captured_start : ℕ → List Captured → Start
captured_start pid [] = none
captured_start pid (c ∷ cs) = if c.pid == pid then c.start else captured_start pid cs

unfoldable pub has_held : ℕ → List Held → Bool
has_held pid [] = false
has_held pid (h ∷ hs) = h.wrapper == pid || has_held pid hs

unfoldable pub set_held : Held → List Held → List Held
set_held h [] = h ∷ []
set_held h (g ∷ gs) = if g.wrapper == h.wrapper then h ∷ gs else g ∷ set_held h gs

-- `held.pop(w)`
unfoldable pub drop_held : ℕ → List Held → List Held
drop_held w hs = keep (λ h. not (h.wrapper == w)) hs

unfoldable pub set_group : Group → List Group → List Group
set_group g [] = g ∷ []
set_group g (h ∷ hs) = if h.wrapper == g.wrapper then g ∷ hs else h ∷ set_group g hs

abbrev child_row : List Proc → Option Lease → Option Proc
child_row procs none = none
child_row procs (some row) = elim row.child_pid [ none ↦ none | some c ↦ find c procs ]

-- `note_child`
unfoldable pub note_child : List Proc → ℕ → Option Lease → List Group → List Group
note_child procs w row groups = elim (child_row procs row) [
  | none ↦ groups
  | some cp ↦ set_group (record { wrapper = w; child = cp.pid; pgid = cp.pgid }) groups
]

unfoldable pub note_children : List Proc → List Held → List Group → List Group
note_children procs [] groups = groups
note_children procs (h ∷ hs) groups =
    note_children procs hs (note_child procs h.wrapper h.row groups)

-- `dict.fromkeys`
unfoldable pub dedupe : List ℕ → List ℕ
dedupe [] = []
dedupe (d ∷ ds) = d ∷ keep (λ x. not (x == d)) (dedupe ds)

-- The end of a round; `is_done` says that nothing was alive and nothing was new.
pub record Round : Type 0 where
  pub engine : Engine
  pub state : Stop
  pub is_done : Bool

abbrev pub nothing : List ℕ → Bool
nothing [] = true
nothing (d ∷ ds) = false

abbrev pub none_held : List Held → Bool
none_held [] = true
none_held (h ∷ hs) = false

module _ (w : World) (mine : List ℕ) where
  -- A descendant that is neither captured as it stands, nor ours, nor held, nor dead, nor hidden.
  unfoldable pub is_candidate : List Proc → Stop → ℕ → Bool
  is_candidate snap st d = elim (find d snap) [
    | none ↦ false
    | some dp ↦
        not (same (some dp) (captured_start d st.captured))
        && (not (contains d mine)
            && (not (has_held d st.held) && (not dp.zombie && (dp.visible && dp.uid == w.uid))))
  ]

  -- The candidates below the parents that are still themselves.
  unfoldable pub candidates : List Proc → Stop → List ℕ → List ℕ
  candidates snap st [] = []
  candidates snap st (a ∷ parents) =
      (if same (find a snap) (captured_start a st.captured)
        then keep (is_candidate snap st) (descendants snap (st.stop ++ st.excluded) a)
        else [])
      ++ candidates snap st parents

  -- `_fresh_roots`: the root rules, applied to the newly seen pids.
  unfoldable pub fresh_roots : List Proc → List ℕ → List (ℕ × String)
  fresh_roots snap [] = []
  fresh_roots snap (d ∷ ds) = w.root_rule_fn snap (dedupe (d ∷ ds))

  -- Another owner's root is kept, and excluded with its subtree.
  unfoldable pub exclude : List Proc → List (ℕ × String) → Stop → Stop
  exclude snap [] st = st
  exclude snap ((r, oid) ∷ roots) st = exclude snap roots (record st {
    kept = add_kept (record { owner = oid; pid = r; start = start_at snap r }) st.kept;
    excluded = r ∷ descendants snap [] r ++ st.excluded;
  })

  -- `held[d] = ever_held[d] = (start, row)`, and the child's group.
  unfoldable pub hold : List Proc → ℕ → Start → Option Lease → Stop → Stop
  hold snap d start row st =
      let h : Held = record { wrapper = d; start = start; row = row } in
      record st {
        held = set_held h st.held;
        ever_held = set_held h st.ever_held;
        child_pgid = note_child snap d row st.child_pgid;
      }

  -- The candidates to stop, and the wrappers among them to hold.
  unfoldable pub settle : List Proc → List Lease → List ℕ → Stop → Stop × List ℕ
  settle snap rows [] st = (st, [])
  settle snap rows (d ∷ ds) st =
      let skip = settle snap rows ds st in
      let guard = settle snap rows ds (hold snap d (start_at snap d) (lease_of d rows) st) in
      if contains d st.excluded
      then skip
      else if is_some (lease_of d rows) && holds snap d (lease_of d rows)
      then guard
      else (skip.0, d ∷ skip.1)

  unfoldable pub discover : List Proc → List Lease → List ℕ → Stop → Stop × List ℕ
  discover snap rows parents st =
      let cand = candidates snap st parents in
      settle snap rows (dedupe cand) (exclude snap (fresh_roots snap cand) st)

  -- `rows.get(w) or held[w][1]`
  unfoldable pub last_row : ℕ → List Lease → Option Lease → Option Lease
  last_row wrapper rows old = if is_some (lease_of wrapper rows) then lease_of wrapper rows else old

  unfoldable pub is_released : List Proc → List Lease → Held → Bool
  is_released snap rows h =
      not (holds snap h.wrapper (last_row h.wrapper rows h.row))
      && same (find h.wrapper snap) h.start

  -- A held wrapper joins the captured processes.
  unfoldable pub free : Held → Stop → Stop
  free h st = record st {
    captured = set_captured (record { pid = h.wrapper; start = h.start; depth = 0 }) st.captured;
    held = drop_held h.wrapper st.held;
  }

  unfoldable pub release : List Proc → List Lease → List Held → Stop → Stop × List ℕ
  release snap rows [] st = (st, [])
  release snap rows (h ∷ hs) st =
      let st' = hold snap h.wrapper h.start (last_row h.wrapper rows h.row) st in
      let (freed, out) = release snap rows hs (free h st') in
      let stays = release snap rows hs st' in
      if is_released snap rows h then (freed, h.wrapper ∷ out) else stays

  -- `captured.setdefault(d, start)`
  unfoldable pub capture_new : List Proc → ℕ → List Captured → List Captured
  capture_new snap d cs =
      if has_captured d cs
      then cs
      else cs ++ record { pid = d; start = start_at snap d; depth = 0 } ∷ []

  unfoldable pub signal_new : List Proc → List ℕ → Engine → Stop → Engine × Stop
  signal_new snap [] e st = (e, st)
  signal_new snap (d ∷ ds) e st =
      let cs = capture_new snap d st.captured in
      signal_new snap ds (signal w d (captured_start d cs) sigterm e).0
        (record st { captured = cs })

  -- `[p for p in captured if self._alive(p, captured[p])]`
  unfoldable pub alive_of : List Captured → Engine → Engine × List ℕ
  alive_of [] e = (e, [])
  alive_of (c ∷ cs) e =
      let (e1, up) = alive w c.pid c.start e in
      let (e2, rest) = alive_of cs e1 in (e2, if up then c.pid ∷ rest else rest)

  -- The part of a round that reads the table and the leases, and signals what is new.
  unfoldable pub pursue : List ℕ → Engine → Stop → Round
  pursue up e st =
      let snap = w.table e.time in
      let rows = w.leases (e.time + 1) in
      let (st1, new) = discover snap rows up st in
      let (st2, freed) = release snap rows st1.held st1 in
      let (e', st3) = signal_new snap (new ++ freed) (later (later e)) st2 in
      record { engine = e'; state = st3; is_done = nothing up && nothing (new ++ freed) }

  -- One round, up to the test that ends the loop.
  unfoldable pub round : Engine → Stop → Round
  round e st =
      let (e1, up) = alive_of st.captured e in
      if nothing up && none_held st.held
      then record { engine = e1; state = st; is_done = true }
      else pursue up e1 st

  -- The loop. It also ends at the deadline, and `none` says that the fuel ran out first.
  unfoldable pub watch : ℕ → ℕ → Engine → Stop → Option (Engine × Stop)
  watch zero deadline e st = none
  watch (suc fuel) deadline e st =
      let r = round e st in
      let again = watch fuel deadline (later r.engine) r.state in
      if r.is_done || leb deadline (w.mono r.engine.time)
      then some (later r.engine, r.state)
      else again

  -- `sorted(captured, key=lambda q: -depth[q])`
  unfoldable pub insert_deeper : Captured → List Captured → List Captured
  insert_deeper c [] = c ∷ []
  insert_deeper c (d ∷ ds) = if leb d.depth c.depth then c ∷ d ∷ ds else d ∷ insert_deeper c ds

  unfoldable pub sort_deeper : List Captured → List Captured
  sort_deeper [] = []
  sort_deeper (c ∷ cs) = insert_deeper c (sort_deeper cs)

  unfoldable pub signal_all : List Captured → Engine → Engine
  signal_all [] e = e
  signal_all (c ∷ cs) e = signal_all cs (signal w c.pid c.start sigterm e).0

  unfoldable pub begin : List Proc → Plan → Stop
  begin inv p = record {
    stop = p.stop;
    captured = p.captured;
    kept = p.kept;
    held = p.held;
    ever_held = p.held;
    child_pgid = note_children inv p.held [];
    excluded = [];
  }

  -- `_graceful` from the plan to the end of the loop, on the snapshot `inv`: one reading for the
  -- leases, one for `_first_term`, the signals, one for the deadline, the rounds.
  unfoldable pub terminate : ℕ → List Proc → Partition → List ℕ → Engine → Option (Engine × Stop)
  terminate fuel inv part targets e =
      let p = plan inv part (w.leases e.time) targets mine in
      let e1 = signal_all (sort_deeper p.captured) (later (later e)) in
      watch fuel (w.mono e1.time + w.grace_s) (later e1) (begin inv p)
