-- ===== src/Pressure/Suggest.antt =====
-- memmon_pressure.py, `heavy_pids`, `_managed`, `_nearest_root` and `suggestions`. How a process
-- classifies, what its name is in lower case, and the child jobs of `s1_jobs` are the caller's.
-- The task's place, which is read from git, is left out.
pub mod Rows
use claude_memmon.Prelude.{
  ℕ, zero, suc, ◌+◌, ◌-◌, ◌*◌, ◌/◌, ◌==◌, String, Bool, true, false, Option, none, some, List, [],
  ◌∷◌, ◌++◌, ◌&&◌, ◌||◌, not, ltb, str_eq, if◌then◌else◌, length, take, keep, contains, sort_by,
  is_some, map,
}
use claude_memmon.Procs.Walk.{Proc, find, descendants}
use claude_memmon.Procs.Climb.{parent_of, self_and_ancestors, heavy_roots}
use claude_memmon.Runner.Footprint.{same_start}
use claude_memmon.Act.Engine.{Lease, Start}
use claude_memmon.Act.Plan.{owner_at}
use claude_memmon.Pressure.Series.{Stats, series_stats}
use claude_memmon.Pressure.History.{JobId, key_of, Root, points_of, total_footprint}

abbrev pub suggest_max : ℕ
suggest_max = 3

abbrev pub suggest_min_bytes : ℕ
suggest_min_bytes = 1073741824

-- Whether a string is one of these.
unfoldable pub is_one_of : String → List String → Bool
is_one_of s [] = false
is_one_of s (t ∷ ts) = str_eq s t || is_one_of s ts

abbrev pub candidate_comms : List String
candidate_comms =
    "node" ∷ "bun" ∷ "deno" ∷ "python" ∷ "python3" ∷ "zsh" ∷ "bash" ∷ "sh" ∷ "pnpm" ∷ "npm" ∷ "npx"
    ∷ "yarn" ∷ "turbo" ∷ "tsc" ∷ "vitest" ∷ "jest" ∷ "pytest" ∷ "cargo" ∷ "make" ∷ "gradle" ∷ "java"
    ∷ "docker" ∷ "go" ∷ "esbuild" ∷ "next-server" ∷ "webpack" ∷ "playwright" ∷ "xcodebuild" ∷ []

abbrev pub heavy_kinds : List String
heavy_kinds = "build" ∷ "test" ∷ "server" ∷ []

-- What the rows are made from beside the snapshot: `kind_of`, `str.lower`, the user, memmon's pid,
-- the RAM, the time, and `inv.kind == "degraded"`.
pub record Setting : Type 0 where
  pub kind_of : ℕ → String × String
  pub lower : String → String
  pub uid : ℕ
  pub self_pid : ℕ
  pub ram_bytes : ℕ
  pub now : ℕ
  pub snapshot_ts : ℕ
  pub degraded : Bool
  pub mint : Bool

-- An owner of the partition.
pub record Owner : Type 0 where
  pub owner_id : String
  pub kind : String
  pub is_self : Bool
  pub root : ℕ
  pub members : List ℕ

unfoldable pub is_heavy : Setting → List Proc → ℕ → Bool
is_heavy c procs pid = elim (find pid procs) [
  | none ↦ false
  | some p ↦
      ((p.visible && not p.zombie)
        && (p.uid == c.uid && is_one_of (c.lower p.comm) candidate_comms))
      && is_one_of (c.kind_of pid).0 heavy_kinds
]

-- `heavy_pids`, of the given pids.
unfoldable pub heavy_pids : Setting → List Proc → List ℕ → List ℕ
heavy_pids c procs pids = keep (is_heavy c procs) pids

unfoldable pub managed_by : List Proc → Lease → List ℕ
managed_by procs row = elim row.child_pid [
  | none ↦ []
  | some c ↦ elim (find c procs) [
    | none ↦ []
    | some cp ↦
        if same_start cp.start row.child_start then cp.pid ∷ descendants procs [] cp.pid else []
  ]
]

-- `_managed`
unfoldable pub managed : List Proc → List Lease → List ℕ
managed procs [] = []
managed procs (row ∷ rows) = managed_by procs row ++ managed procs rows

-- The loop of `_nearest_root`.
unfoldable pub nearest : List Proc → List (ℕ × String) → ℕ → Option ℕ → List ℕ → Option ℕ
nearest procs roots zero cur seen = none
nearest procs roots (suc fuel) none seen = none
nearest procs roots (suc fuel) (some pid) seen =
    let rest = nearest procs roots fuel (parent_of procs pid) (pid ∷ seen) in
    if is_some (find pid procs) && not (contains pid seen)
    then if is_some (owner_at pid roots) then some pid else rest
    else none

unfoldable pub nearest_root : List Proc → List (ℕ × String) → ℕ → Option ℕ
nearest_root procs roots pid = nearest procs roots (suc (length procs)) (parent_of procs pid) []

pub data Note : Type 0 where
  orphan group : Note

pub data StopKind : Type 0 where
  stop_job stop_server : StopKind
  as_listed : String → StopKind

-- A token, listed already or minted here: the owner's root, the target and its group.
pub data Token : Type 0 where
  listed : String → Token
  minted : StopKind → String → JobId → JobId → ℕ → ℕ → Token

-- The child job that is listed for a process.
pub record Listed : Type 0 where
  pub is_managed : Bool
  pub kind : String
  pub action : String
  pub token : Option String

-- What a row offers to do about a job.
pub record Offer : Type 0 where
  pub kind : String
  pub stop : Option StopKind
  pub note : Option Note
  pub token : Option Token

pub record Row : Type 0 where
  pub pid : ℕ
  pub job : Option JobId
  pub owner_id : String
  pub offer : Offer
  pub footprint : ℕ
  pub stats : Stats
  pub age_s : ℕ

abbrev group_at : List Proc → ℕ → Option ℕ
group_at procs pid = elim (find pid procs) [ none ↦ none | some p ↦ some p.pgid ]

abbrev is_endable : String → Bool
is_endable kind = str_eq kind "claude" || str_eq kind "codex"

abbrev listed_token : Option String → Option Token
listed_token none = none
listed_token (some t) = some (listed t)

abbrev in_group : Option ℕ → ℕ → Bool
in_group none pgid = false
in_group (some g) pgid = pgid == g

abbrev stop_of_kind : String → StopKind
stop_of_kind kind = if str_eq kind "server" then stop_server else stop_job

abbrev mint_for : Setting → StopKind → String → Option JobId → Option JobId → ℕ → Option Token
mint_for c stop oid none job pgid = none
mint_for c stop oid (some r) none pgid = none
mint_for c stop oid (some r) (some j) pgid =
    if c.mint && not c.degraded then some (minted stop oid r j pgid c.snapshot_ts) else none

-- A job that is not listed: under the nearest owner's root, which must be its own owner's.
unfoldable pub unlisted_offer :
    Setting → List Proc → List (ℕ × String) → Owner → Proc → String → Option Offer
unlisted_offer c procs roots o p kind = elim (nearest_root procs roots p.pid) [
  | none ↦ none
  | some r ↦ elim (owner_at r roots) [
    | none ↦ none
    | some oid ↦
        if not (str_eq oid o.owner_id)
        then none
        else if in_group (group_at procs r) p.pgid
        then some (record { kind = kind; stop = none; note = some group; token = none })
        else some (record {
          kind = kind;
          stop = some (stop_of_kind kind);
          note = none;
          token = elim (find r procs) [
            | none ↦ none
            | some rp ↦ mint_for c (stop_of_kind kind) o.owner_id (key_of rp) (key_of p) p.pgid
          ];
        })
  ]
]

-- The offer for a heavy root; none where it is no suggestion.
unfoldable pub offer_of :
    Setting → List Proc → List (ℕ × String) → Owner → Option Listed → Proc → Option Offer
offer_of c procs roots o s1 p =
    let kind = (c.kind_of p.pid).0 in
    if is_some (owner_at p.pid roots)
    then if not (str_eq o.kind "unknown")
      then none
      else some (record { kind = kind; stop = none; note = some orphan; token = none })
    else if is_endable o.kind && in_group (group_at procs o.root) p.pgid
    then none
    else elim s1 [
      | none ↦ unlisted_offer c procs roots o p kind
      | some l ↦
          if l.is_managed
          then none
          else some (record {
            kind = if is_one_of l.kind heavy_kinds then l.kind else kind;
            stop = some (as_listed l.action);
            note = none;
            token = listed_token l.token;
          })
    ]

-- A degraded source offers nothing, and a row has a token only where `mint` is set.
abbrev pub settled : Setting → Offer → Offer
settled c f =
    if c.degraded
    then record f { stop = none; token = none }
    else if c.mint
    then f
    else record f { token = none }

-- `fp < floor`
unfoldable pub is_small : Setting → ℕ → Bool
is_small c fp = ltb fp suggest_min_bytes || ltb (50 * fp) c.ram_bytes

abbrev start_ns : Start → ℕ
start_ns none = 0
start_ns (some s) = s.0 * 1000000000 + s.1 * 1000

-- The root and what is below it, without nested owners and what is not the owner's.
unfoldable pub members_of : List Proc → List (ℕ × String) → List ℕ → ℕ → List ℕ
members_of procs roots mine pid =
    pid ∷ keep (λ d. contains d mine) (descendants procs (map (λ (r : ℕ × String). r.0) roots) pid)
