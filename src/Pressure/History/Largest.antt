-- ===== src/Pressure/History/Largest.antt =====
-- What the history keeps.
use claude_memmon.Prelude.{
  ℕ, ◌≤◌, ◌≡◌, String, true, Option, some, List, [], ◌∷◌, inl, inr, refl, arith, All, Bool-cases,
  Option-cases, ltb, length, sort_by, sort_by-All, take-All, length-take_le,
}
use claude_memmon.Procs.Walk.{Proc, find, descendants}
use claude_memmon.Procs.Climb.{heavy_roots}
use claude_memmon.Pressure.Series.{Point, add_point, history_max_points}
use claude_memmon.Pressure.History.{
  History, Root, key_of, points_of, old_roots, total_footprint, cpu_ns, root_entry, root_entries,
  last_footprint, cut, update_job_history, history_max_roots, history_min_bytes,
}

-- An entry is large enough, and its series is the old one of the same job with a new point in
-- front, of at most 60 points.
pub record Kept (old : List Root) (awake : ℕ) (r : Root) : Type 0 where
  pub large : history_min_bytes ≤ last_footprint r
  pub point : Point
  pub now : point.awake ≡ awake
  pub grown : r.points ≡ add_point point (points_of r.job old)
  pub bounded : length r.points ≤ history_max_points

root_entry-Kept :
    (timebase : ℕ × ℕ) (procs : List Proc) (old : List Root) (awake : ℕ)
    (heavy : ℕ → String × String) (pid : ℕ) (r : Root)
    → root_entry timebase procs old awake heavy pid ≡ some r
    → Kept old awake r
unfolding root_entry add_point
root_entry-Kept timebase procs old awake heavy pid r h =
    let members = pid ∷ descendants procs [] pid in
    let fp = total_footprint procs members in
    elim (Option-cases (find pid procs)) [
      | inl gone ↦ absurd (ground arith)
      | inr (p, found) ↦ elim (Option-cases (key_of p)) [
        | inl no_key ↦ absurd (ground arith)
        | inr (job, keyed) ↦ elim (Bool-cases (ltb fp history_min_bytes)) [
          | inl small ↦ absurd (ground arith)
          | inr large ↦
              let q : Point = record {
                awake = awake;
                footprint = fp;
                cpu = cpu_ns timebase procs members;
              } in
              let entry : Root = record {
                job = job;
                kind = (heavy pid).0;
                label = (heavy pid).1;
                points = add_point q (points_of job old);
              } in
              let eq : r ≡ entry = ground arith in
              rw eq (record {
                large = ground arith;
                point = q;
                now = refl;
                grown = refl;
                bounded = length-take_le history_max_points (q ∷ points_of job old);
              })
        ]
      ]
    ]

root_entries-Kept :
    (timebase : ℕ × ℕ) (procs : List Proc) (old : List Root) (awake : ℕ)
    (heavy : ℕ → String × String) (pids : List ℕ)
    → All (Kept old awake) (root_entries timebase procs old awake heavy pids)
unfolding root_entries
root_entries-Kept timebase procs old awake heavy [] = tt
root_entries-Kept timebase procs old awake heavy (pid ∷ pids) =
    let rest = root_entries-Kept timebase procs old awake heavy pids in
    elim (Option-cases (root_entry timebase procs old awake heavy pid)) [
      | inl none' ↦ rw (root_entries, none') rest
      | inr (r, some') ↦
          rw (root_entries, some')
            (root_entry-Kept timebase procs old awake heavy pid r some', rest)
    ]

cut-All : (P : Root → Type 0) (roots : List Root) → All P roots → All P (cut roots)
unfolding cut
cut-All P roots all = elim (Bool-cases (ltb history_max_roots (length roots))) [
  | inl many ↦ rw many (
      take-All P history_max_roots (sort_by last_footprint roots)
        (sort_by-All last_footprint P roots all))
  | inr few ↦ rw few all
]

length-cut : (roots : List Root) → length (cut roots) ≤ history_max_roots
unfolding cut
length-cut roots = elim (Bool-cases (ltb history_max_roots (length roots))) [
  | inl many ↦ rw many (length-take_le history_max_roots (sort_by last_footprint roots))
  | inr few ↦ rw few (ground arith)
]

-- After a run the history is of this boot and holds at most 64 roots, each of them of 256 MiB or
-- more with a series of at most 60 points: the series that the job had in a history of the same
-- boot, and the new point in front.
pub update_job_history-Kept :
    (timebase : ℕ × ℕ) (hist : Option History) (procs : List Proc) (pids : List ℕ)
    (heavy : ℕ → String × String) (awake : ℕ) (boot : Option String)
    → ((update_job_history timebase hist procs pids heavy awake boot).boot ≡ boot)
      × (length (update_job_history timebase hist procs pids heavy awake boot).roots
          ≤ history_max_roots)
      × All
          (Kept (old_roots hist boot) awake)
          (update_job_history timebase hist procs pids heavy awake boot).roots
unfolding update_job_history
update_job_history-Kept timebase hist procs pids heavy awake boot =
    let old = old_roots hist boot in
    let top = heavy_roots procs pids (λ pid. true) in
    let entries = root_entries timebase procs old awake heavy top in
    (
      refl,
      length-cut entries,
      cut-All (Kept old awake) entries (root_entries-Kept timebase procs old awake heavy top),
    )
