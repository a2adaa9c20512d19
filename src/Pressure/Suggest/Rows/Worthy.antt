-- ===== src/Pressure/Suggest/Rows/Worthy.antt =====
-- What a suggestion promises.
use claude_memmon.Prelude.{
  ℕ, ◌*◌, ◌≤◌, ◌≡◌, String, Bool, true, false, Option, some, List, [], ◌∷◌, ◌++◌, inl, inr, arith,
  All, Bool-cases, Option-cases, ◌&&◌, ◌||◌, not, ◌==◌, contains, is_some, length, keep, sort_by,
  sort_by-All, sort_by-Descending, take-All, take-Descending, Descending, length-take_le,
}
use claude_memmon.Procs.Walk.{Proc, find}
use claude_memmon.Procs.Climb.{
  self_and_ancestors, heavy_roots, has_heavy_ancestor, sort_pids, insert_pid,
}
use claude_memmon.Act.Engine.{Lease}
use claude_memmon.Pressure.History.{JobId, key_of, Root, total_footprint}
use claude_memmon.Pressure.Suggest.{
  Setting, Owner, Offer, Row, Listed, heavy_pids, is_heavy, managed, offer_of, settled, is_small,
  members_of, suggest_max, suggest_min_bytes,
}
use claude_memmon.Pressure.Suggest.Rows.{
  listed_for, row_of, rows_of, is_skipped, mine_of, owner_rows, all_rows, suggestions,
}

-- A row names a live heavy process of the user that no other heavy process of its owner started,
-- that is no managed job and none of memmon's own ancestors; with what it started it has at least
-- 1 GiB and 2 % of the RAM, and a degraded source offers no way to stop it.
pub record Worthy (c : Setting) (procs : List Proc) (leases : List Lease) (r : Row) : Type 0 where
  pub owner : Owner
  pub of_owner : r.owner_id ≡ owner.owner_id
  pub not_skipped : is_skipped owner ≡ false
  pub heavy : is_heavy c procs r.pid ≡ true
  pub top :
      has_heavy_ancestor procs r.pid
        (heavy_pids c procs (mine_of c procs leases owner))
        (λ pid. contains pid (mine_of c procs leases owner))
      ≡ false
  pub not_managed : contains r.pid (managed procs leases) ≡ false
  pub not_self : contains r.pid (self_and_ancestors procs c.self_pid) ≡ false
  pub large : suggest_min_bytes ≤ r.footprint
  pub large_share : c.ram_bytes ≤ 50 * r.footprint
  pub quiet : (c.degraded && is_some r.offer.stop) ≡ false

-- What is kept of a list satisfies the test and stood in the list.
keep-contains :
    (p : ℕ → Bool) (a : ℕ) (xs : List ℕ)
    → contains a (keep p xs) ≡ true
    → (p a ≡ true) × (contains a xs ≡ true)
keep-contains p a [] h = absurd (ground arith)
keep-contains p a (x ∷ xs) h = elim (Bool-cases (p x)) [
  | inl hit ↦ elim (Bool-cases (a == x)) [
    | inl same ↦ let eq : a ≡ x = ground arith in (rw eq hit, ground arith)
    | inr other ↦ let (t, u) = keep-contains p a xs (ground arith) in (t, ground arith)
  ]
  | inr miss ↦ let (t, u) = keep-contains p a xs (ground arith) in (t, ground arith)
]

insert_pid-contains :
    (a p : ℕ) (xs : List ℕ) → contains a (insert_pid p xs) ≡ true → contains a (p ∷ xs) ≡ true
unfolding insert_pid
insert_pid-contains a p [] h = h
insert_pid-contains a p (x ∷ xs) h = ground (arith, insert_pid-contains a p xs)

sort_pids-contains : (a : ℕ) (xs : List ℕ) → contains a (sort_pids xs) ≡ true → contains a xs ≡ true
unfolding sort_pids
sort_pids-contains a [] h = h
sort_pids-contains a (x ∷ xs) h =
    ground (arith, insert_pid-contains a x (sort_pids xs) h, sort_pids-contains a xs)

heavy_roots-contains :
    (procs : List Proc) (hs : List ℕ) (scope : ℕ → Bool) (a : ℕ)
    → contains a (heavy_roots procs hs scope) ≡ true
    → (has_heavy_ancestor procs a hs scope ≡ false) × (contains a hs ≡ true)
unfolding heavy_roots
heavy_roots-contains procs hs scope a h =
    let test : ℕ → Bool = λ pid. not (has_heavy_ancestor procs pid hs scope) in
    let (free, inside) = keep-contains test a hs (sort_pids-contains a (keep test hs) h) in
    (ground arith, inside)

settled_quiet : (c : Setting) (f : Offer) → (c.degraded && is_some (settled c f).stop) ≡ false
settled_quiet c f = elim (Bool-cases c.degraded) [ inl d ↦ ground arith | inr d ↦ ground arith ]

module _ (c : Setting) (procs : List Proc) (roots : List (ℕ × String)) (leases : List Lease)
    (hist : List Root) (s1 : JobId → Option Listed) where
  row_of-Worthy :
      (o : Owner) (pid : ℕ) (r : Row)
      → is_skipped o ≡ false
      → contains pid (
          heavy_roots procs
            (heavy_pids c procs (mine_of c procs leases o))
            (λ pid. contains pid (mine_of c procs leases o)))
        ≡ true
      → row_of c procs roots hist s1 o (mine_of c procs leases o) pid ≡ some r
      → Worthy c procs leases r
  unfolding row_of is_small heavy_pids mine_of
  row_of-Worthy o pid r kept inside h =
      let mine = mine_of c procs leases o in
      let fp = total_footprint procs (members_of procs roots mine pid) in
      let (top, hot) =
        heavy_roots-contains procs (heavy_pids c procs mine) (λ pid. contains pid mine) pid
          inside in
      let (heavy, own) = keep-contains (is_heavy c procs) pid mine hot in
      let (spared, listed) =
        keep-contains
          (λ pid. not (
            contains pid (managed procs leases)
            || contains pid (self_and_ancestors procs c.self_pid)))
          pid o.members own in
      elim (Option-cases (find pid procs)) [
        | inl gone ↦ absurd (ground arith)
        | inr (p, found) ↦ elim (Bool-cases (is_small c fp)) [
          | inl small ↦ absurd (ground arith)
          | inr large ↦
              elim (Option-cases (offer_of c procs roots o (listed_for s1 (key_of p)) p)) [
                | inl nothing ↦ absurd (ground arith)
                | inr (f, offered) ↦
                    let same_pid : r.pid ≡ pid = ground arith in
                    let same_owner : r.owner_id ≡ o.owner_id = ground arith in
                    let same_fp : r.footprint ≡ fp = ground arith in
                    let same_offer : r.offer ≡ settled c f = ground arith in
                    record {
                      owner = o;
                      of_owner = same_owner;
                      not_skipped = kept;
                      heavy = rw same_pid heavy;
                      top = rw same_pid top;
                      not_managed = rw same_pid (ground arith);
                      not_self = rw same_pid (ground arith);
                      large = ground arith;
                      large_share = ground arith;
                      quiet = rw same_offer (settled_quiet c f);
                    }
              ]
        ]
      ]

  rows_of-Worthy :
      (o : Owner) (pids : List ℕ)
      → is_skipped o ≡ false
      → ((pid : ℕ)
          → contains pid pids ≡ true
          → contains pid (
              heavy_roots procs
                (heavy_pids c procs (mine_of c procs leases o))
                (λ pid. contains pid (mine_of c procs leases o)))
            ≡ true)
      → All
          (Worthy c procs leases)
          (rows_of c procs roots hist s1 o (mine_of c procs leases o) pids)
  unfolding rows_of
  rows_of-Worthy o [] kept sub = tt
  rows_of-Worthy o (pid ∷ pids) kept sub =
      let rest = rows_of-Worthy o pids kept (λ q m. sub q (ground arith)) in
      elim (Option-cases (row_of c procs roots hist s1 o (mine_of c procs leases o) pid)) [
        | inl none' ↦ rw (rows_of, none') rest
        | inr (r, some') ↦
            rw (rows_of, some') (row_of-Worthy o pid r kept (sub pid (ground arith)) some', rest)
      ]

  owner_rows-Worthy :
      (o : Owner) → All (Worthy c procs leases) (owner_rows c procs roots leases hist s1 o)
  unfolding owner_rows
  owner_rows-Worthy o = elim (Bool-cases (is_skipped o)) [
    | inl skip ↦ rw (owner_rows, skip) tt
    | inr kept ↦
        rw (owner_rows, kept)
          (rows_of-Worthy o
            (heavy_roots procs (heavy_pids c procs (mine_of c procs leases o))
              (λ pid. contains pid (mine_of c procs leases o)))
            kept (λ pid m. m))
  ]

  append-Worthy :
      (xs ys : List Row)
      → All (Worthy c procs leases) xs
      → All (Worthy c procs leases) ys
      → All (Worthy c procs leases) (xs ++ ys)
  append-Worthy [] ys a b = b
  append-Worthy (x ∷ xs) ys (w, a) b = (w, append-Worthy xs ys a b)

  all_rows-Worthy :
      (os : List Owner) → All (Worthy c procs leases) (all_rows c procs roots leases hist s1 os)
  unfolding all_rows
  all_rows-Worthy [] = tt
  all_rows-Worthy (o ∷ os) =
      append-Worthy (owner_rows c procs roots leases hist s1 o)
        (all_rows c procs roots leases hist s1 os) (owner_rows-Worthy o) (all_rows-Worthy os)

-- At most three jobs are suggested, the largest first, and each of them is worth it: a live heavy
-- process of the user, with no heavy process of the same owner above it, neither a managed job nor
-- one of memmon's own ancestors, with at least 1 GiB and 2 % of the RAM; a degraded source offers
-- no way to stop one.
pub suggestions-Worthy :
    (c : Setting) (procs : List Proc) (roots : List (ℕ × String)) (leases : List Lease)
    (hist : List Root) (s1 : JobId → Option Listed) (owners : List Owner)
    → (length (suggestions c procs roots leases hist s1 owners) ≤ suggest_max)
      × Descending (λ (r : Row). r.footprint) (suggestions c procs roots leases hist s1 owners)
      × All (Worthy c procs leases) (suggestions c procs roots leases hist s1 owners)
unfolding suggestions
suggestions-Worthy c procs roots leases hist s1 owners =
    let rows = all_rows c procs roots leases hist s1 owners in
    let sorted = sort_by (λ (r : Row). r.footprint) rows in
    (
      length-take_le suggest_max sorted,
      take-Descending (λ (r : Row). r.footprint) suggest_max sorted
          (sort_by-Descending (λ (r : Row). r.footprint) rows),
      take-All (Worthy c procs leases) suggest_max sorted (
          sort_by-All (λ (r : Row). r.footprint) (Worthy c procs leases) rows
            (all_rows-Worthy c procs roots leases hist s1 owners)),
    )
