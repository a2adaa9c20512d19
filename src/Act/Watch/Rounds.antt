-- ===== src/Act/Watch/Rounds.antt =====
-- The rounds of a graceful stop send lawful signals only, and end.
use claude_memmon.Prelude.{
  ℕ, ◌≤◌, ◌≡◌, true, Option, none, some, List, [], ◌∷◌, ◌++◌, inl, inr, arith, All, Bool-cases,
  Option-cases, ◌&&◌, not, ◌==◌, contains, keep, is_some, String,
}
use claude_memmon.Procs.Walk.{Proc, find, descendants}
use claude_memmon.Act.Engine.{Partition, Start, Lease, World, same, holds, lease_of}
use claude_memmon.Act.Plan.{Captured, Held, start_at}
use claude_memmon.Act.Watch.{
  Stop, captured_start, dedupe, is_candidate, candidates, exclude, hold, settle, discover, free,
  release, is_released, last_row, fresh_roots,
}
use claude_memmon.Act.Watch.Lawful.{
  Known, found, Ours, set_held-All, drop_held-All, set_captured-All,
}

-- `P` holds of the pids with the starts they have in the snapshot.
abbrev pub Free : (ℕ → Start → Type 0) → List Proc → List ℕ → Type 0
Free P snap ds = All (λ d. P d (start_at snap d)) ds

abbrev InAll : List ℕ → List ℕ → Type 0
InAll xs ys = (d : ℕ) → contains d xs ≡ true → contains d ys ≡ true

module _ (P : ℕ → Start → Type 0) (snap : List Proc) where
  pub Free-append : (xs ys : List ℕ) → Free P snap xs → Free P snap ys → Free P snap (xs ++ ys)
  Free-append [] ys a b = b
  Free-append (x ∷ xs) ys (h, a) b = (h, Free-append xs ys a b)

  without-Free : (x : ℕ) (ds : List ℕ) → Free P snap ds → Free P snap (keep (λ y. not (y == x)) ds)
  without-Free x [] all = tt
  without-Free x (d ∷ ds) (h, all) = elim (Bool-cases (d == x)) [
    | inl yes' ↦ rw yes' (without-Free x ds all)
    | inr no' ↦ rw no' (h, without-Free x ds all)
  ]

  dedupe-Free : (ds : List ℕ) → Free P snap ds → Free P snap (dedupe ds)
  unfolding dedupe
  dedupe-Free [] all = tt
  dedupe-Free (d ∷ ds) (h, all) = (h, without-Free d (dedupe ds) (dedupe-Free ds all))

module _ (w : World) (mine : List ℕ) (inv : List Proc) (part : Partition) (targets : List ℕ)
    (lo : ℕ) where
  abbrev pub K : ℕ → Start → Type 0
  K = Known w mine inv part targets lo

  captured_start-Known :
      (p : Option Proc) (a : ℕ) (cs : List Captured)
      → All (λ c. K c.pid c.start) cs
      → same p (captured_start a cs) ≡ true
      → K a (captured_start a cs)
  unfolding captured_start same
  captured_start-Known none a [] all h = absurd (ground arith)
  captured_start-Known (some p) a [] all h = absurd (ground arith)
  captured_start-Known p a (c ∷ cs) (k, all) h = elim (Bool-cases (c.pid == a)) [
    | inl yes' ↦ let e : a ≡ c.pid = ground arith in rw yes' (rw e k)
    | inr no' ↦ rw no' (captured_start-Known p a cs all (rw no' at h))
  ]

  candidate-Known :
      (seen parent : ℕ) (stop : List ℕ) (st : Stop) (d : ℕ)
      → lo ≤ seen
      → All (λ c. K c.pid c.start) st.captured
      → same (find parent (w.table seen)) (captured_start parent st.captured) ≡ true
      → contains d (descendants (w.table seen) stop parent) ≡ true
      → is_candidate w mine (w.table seen) st d ≡ true
      → K d (start_at (w.table seen) d)
  unfolding is_candidate
  candidate-Known seen parent stop st d l all up below h =
      elim (Option-cases (find d (w.table seen))) [
        | inl gone ↦ absurd (ground arith)
        | inr (p, there) ↦
            let known =
              captured_start-Known (find parent (w.table seen)) parent st.captured all up in
            found seen parent (captured_start parent st.captured) stop p l known up below there
              (ground arith, ground arith, ground arith) (ground arith) (ground arith)
      ]

  keep-Known :
      (seen parent : ℕ) (stop : List ℕ) (st : Stop) (ds : List ℕ)
      → lo ≤ seen
      → All (λ c. K c.pid c.start) st.captured
      → same (find parent (w.table seen)) (captured_start parent st.captured) ≡ true
      → InAll ds (descendants (w.table seen) stop parent)
      → Free K (w.table seen) (keep (is_candidate w mine (w.table seen) st) ds)
  keep-Known seen parent stop st [] l all up sub = tt
  keep-Known seen parent stop st (d ∷ ds) l all up sub =
      let rest = keep-Known seen parent stop st ds l all up (λ x m. sub x (ground arith)) in
      elim (Bool-cases (is_candidate w mine (w.table seen) st d)) [
        | inl yes' ↦
            rw yes'
              (candidate-Known seen parent stop st d l all up (sub d (ground arith)) yes', rest)
        | inr no' ↦ rw no' rest
      ]

  candidates-Known :
      (seen : ℕ) (st : Stop) (ps : List ℕ)
      → lo ≤ seen
      → All (λ c. K c.pid c.start) st.captured
      → Free K (w.table seen) (candidates w mine (w.table seen) st ps)
  unfolding candidates
  candidates-Known seen st [] l all = tt
  candidates-Known seen st (a ∷ ps) l all =
      let snap = w.table seen in
      let rest = candidates-Known seen st ps l all in
      elim (Bool-cases (same (find a snap) (captured_start a st.captured))) [
        | inl yes' ↦ rw yes' (
            Free-append K snap
              (keep (is_candidate w mine snap st) (descendants snap (st.stop ++ st.excluded) a))
              (candidates w mine snap st ps)
              (keep-Known seen a (st.stop ++ st.excluded) st
                (descendants snap (st.stop ++ st.excluded) a) l all yes' (λ x m. m))
              rest)
        | inr no' ↦ rw no' rest
      ]

module _ (w : World) (mine : List ℕ) (P : ℕ → Start → Type 0) (snap : List Proc) where
  exclude-Ours :
      (roots : List (ℕ × String)) (st : Stop) → Ours P st → Ours P (exclude w mine snap roots st)
  unfolding exclude
  exclude-Ours [] st o = o
  exclude-Ours ((r, oid) ∷ roots) st o =
      exclude-Ours roots _ (record { captured_ok = o.captured_ok; held_ok = o.held_ok })

  hold-Ours :
      (d : ℕ) (start : Start) (row : Option Lease) (st : Stop)
      → P d start
      → Ours P st
      → Ours P (hold w mine snap d start row st)
  unfolding hold
  hold-Ours d start row st f o = record {
    captured_ok = o.captured_ok;
    held_ok =
        set_held-All w mine P (record { wrapper = d; start = start; row = row }) st.held f
          o.held_ok;
  }

  settle-Ours :
      (rows : List Lease) (ds : List ℕ) (st : Stop)
      → Free P snap ds
      → Ours P st
      → Ours P (settle w mine snap rows ds st).0 × Free P snap (settle w mine snap rows ds st).1
  unfolding settle
  settle-Ours rows [] st all o = (o, tt)
  settle-Ours rows (d ∷ ds) st (f, all) o =
      let skip = settle-Ours rows ds st all o in
      elim (Bool-cases (contains d st.excluded)) [
        | inl out ↦ rw out skip
        | inr near ↦
            elim (Bool-cases (is_some (lease_of d rows) && holds snap d (lease_of d rows))) [
              | inl guards ↦
                  rw (near, guards)
                    (settle-Ours rows ds (hold w mine snap d (start_at snap d) (lease_of d rows) st)
                      all (hold-Ours d (start_at snap d) (lease_of d rows) st f o))
              | inr free' ↦ rw (near, free') (skip.0, (f, skip.1))
            ]
      ]

  released :
      (h : Held) (rows : List Lease)
      → is_released w mine snap rows h ≡ true
      → P h.wrapper h.start
      → P h.wrapper (start_at snap h.wrapper)
  unfolding is_released same
  released h rows go f = elim (Option-cases (find h.wrapper snap)) [
    | inl gone ↦ absurd (ground arith)
    | inr (p, there) ↦ let e : start_at snap h.wrapper ≡ h.start = ground arith in rw e f
  ]

  free-Ours : (h : Held) (st : Stop) → P h.wrapper h.start → Ours P st → Ours P (free w mine h st)
  unfolding free
  free-Ours h st f o = record {
    captured_ok =
        set_captured-All w mine P (record { pid = h.wrapper; start = h.start; depth = 0 })
          st.captured f o.captured_ok;
    held_ok = drop_held-All w mine P h.wrapper st.held o.held_ok;
  }

  pub release-Ours :
      (rows : List Lease) (hs : List Held) (st : Stop)
      → All (λ h. P h.wrapper h.start) hs
      → Ours P st
      → Ours P (release w mine snap rows hs st).0 × Free P snap (release w mine snap rows hs st).1
  unfolding release
  release-Ours rows [] st all o = (o, tt)
  release-Ours rows (h ∷ hs) st (f, all) o =
      let st' = hold w mine snap h.wrapper h.start (last_row w mine h.wrapper rows h.row) st in
      let o' = hold-Ours h.wrapper h.start (last_row w mine h.wrapper rows h.row) st f o in
      elim (Bool-cases (is_released w mine snap rows h)) [
        | inl go ↦
            let r = release-Ours rows hs (free w mine h st') all (free-Ours h st' f o') in
            rw go (r.0, (released h rows go f, r.1))
        | inr stay ↦ rw stay (release-Ours rows hs st' all o')
      ]

module _ (w : World) (mine : List ℕ) (inv : List Proc) (part : Partition) (targets : List ℕ)
    (lo : ℕ) where
  pub discover-Ours :
      (seen : ℕ) (rows : List Lease) (ps : List ℕ) (st : Stop)
      → lo ≤ seen
      → Ours (Known w mine inv part targets lo) st
      → Ours (Known w mine inv part targets lo) (discover w mine (w.table seen) rows ps st).0
        × Free
            (Known w mine inv part targets lo)
            (w.table seen)
            (discover w mine (w.table seen) rows ps st).1
  unfolding discover
  discover-Ours seen rows ps st l o =
      let snap = w.table seen in
      let P : ℕ → Start → Type 0 = Known w mine inv part targets lo in
      let cand = candidates w mine snap st ps in
      settle-Ours w mine P snap rows (dedupe cand)
        (exclude w mine snap (fresh_roots w mine snap cand) st)
        (dedupe-Free P snap cand
          (candidates-Known w mine inv part targets lo seen st ps l o.captured_ok))
        (exclude-Ours w mine P snap (fresh_roots w mine snap cand) st o)
