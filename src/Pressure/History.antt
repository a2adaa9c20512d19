-- ===== src/Pressure/History.antt =====
-- memmon_pressure.py, `_cpu_ns` and `update_job_history`: the series of each heavy root. A root's
-- key is its pid and start. Times are exact where the source rounds them to a decimal.
pub mod Largest
use claude_memmon.Prelude.{
  ℕ, ◌+◌, ◌*◌, ◌/◌, ◌==◌, String, Bool, true, false, Option, none, some, List, [], ◌∷◌, ◌&&◌, ltb,
  str_eq, if◌then◌else◌, length, take, map, sum, sort_by, get_or,
}
use claude_memmon.Procs.Walk.{Proc, find, descendants}
use claude_memmon.Procs.Climb.{heavy_roots}
use claude_memmon.Pressure.Series.{Point, add_point}

abbrev pub history_min_bytes : ℕ
history_min_bytes = 268435456

abbrev pub history_max_roots : ℕ
history_max_roots = 64

-- `p.key()`
pub record JobId : Type 0 where
  pub pid : ℕ
  pub sec : ℕ
  pub usec : ℕ

abbrev pub key_of : Proc → Option JobId
key_of p = elim p.start [
  | none ↦ none
  | some s ↦ some (record { pid = p.pid; sec = s.0; usec = s.1 })
]

abbrev pub same_job : JobId → JobId → Bool
same_job a b = a.pid == b.pid && (a.sec == b.sec && a.usec == b.usec)

-- An entry of `roots`.
pub record Root : Type 0 where
  pub job : JobId
  pub kind : String
  pub label : String
  pub points : List Point

pub record History : Type 0 where
  pub boot : Option String
  pub roots : List Root

-- `(roots.get(key) or {}).get("points") or []`
unfoldable pub points_of : JobId → List Root → List Point
points_of job [] = []
points_of job (r ∷ rs) = if same_job r.job job then r.points else points_of job rs

abbrev same_boot : Option String → Option String → Bool
same_boot none none = true
same_boot (some a) (some b) = str_eq a b
same_boot _ _ = false

-- The roots of an earlier state, where it is of this boot.
unfoldable pub old_roots : Option History → Option String → List Root
old_roots none boot = []
old_roots (some h) boot = if same_boot h.boot boot then h.roots else []

abbrev footprint_at : List Proc → ℕ → ℕ
footprint_at procs pid = elim (find pid procs) [ none ↦ 0 | some p ↦ get_or p.footprint 0 ]

unfoldable pub total_footprint : List Proc → List ℕ → ℕ
total_footprint procs pids = sum (map (footprint_at procs) pids)

-- The ticks that were read.
unfoldable pub ticks_of : List Proc → List ℕ → List ℕ
ticks_of procs [] = []
ticks_of procs (pid ∷ pids) =
    let rest = ticks_of procs pids in
    elim (find pid procs) [
      | none ↦ rest
      | some p ↦ elim p.cpu_ticks [ none ↦ rest | some t ↦ t ∷ rest ]
    ]

-- `_cpu_ns`, with the timebase `numer / denom`.
unfoldable pub cpu_ns : ℕ × ℕ → List Proc → List ℕ → Option ℕ
cpu_ns (numer, denom) procs pids = elim (ticks_of procs pids) [
  | [] ↦ none
  | t ∷ ts ↦ some (sum (t ∷ ts) * numer / denom)
]

-- The entry of one heavy root; none where it has no start or is too small to be kept.
unfoldable pub root_entry :
    ℕ × ℕ → List Proc → List Root → ℕ → (ℕ → String × String) → ℕ → Option Root
root_entry timebase procs old awake heavy pid =
    let members = pid ∷ descendants procs [] pid in
    let fp = total_footprint procs members in
    elim (find pid procs) [
      | none ↦ none
      | some p ↦ elim (key_of p) [
        | none ↦ none
        | some job ↦
            if ltb fp history_min_bytes
            then none
            else some (record {
              job = job;
              kind = (heavy pid).0;
              label = (heavy pid).1;
              points =
                  add_point
                    (record { awake = awake; footprint = fp; cpu = cpu_ns timebase procs members })
                    (points_of job old);
            })
      ]
    ]

unfoldable pub root_entries :
    ℕ × ℕ → List Proc → List Root → ℕ → (ℕ → String × String) → List ℕ → List Root
root_entries timebase procs old awake heavy [] = []
root_entries timebase procs old awake heavy (pid ∷ pids) =
    let rest = root_entries timebase procs old awake heavy pids in
    elim (root_entry timebase procs old awake heavy pid) [ none ↦ rest | some r ↦ r ∷ rest ]

-- `roots[k]["points"][-1][2]`
abbrev pub last_footprint : Root → ℕ
last_footprint r = elim r.points [ [] ↦ 0 | p ∷ ps ↦ p.footprint ]

unfoldable pub cut : List Root → List Root
cut roots =
    if ltb history_max_roots (length roots)
    then take history_max_roots (sort_by last_footprint roots)
    else roots

-- `update_job_history`, of the pids that classify as heavy and what they classify as.
unfoldable pub update_job_history :
    ℕ × ℕ
    → Option History
    → List Proc
    → List ℕ
    → (ℕ → String × String)
    → ℕ
    → Option String
    → History
update_job_history timebase hist procs pids heavy awake boot = record {
  boot = boot;
  roots = cut (
      root_entries timebase procs (old_roots hist boot) awake heavy
        (heavy_roots procs pids (λ pid. true)));
}
