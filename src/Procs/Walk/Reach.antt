-- ===== src/Procs/Walk/Reach.antt =====
-- `descendants` returns exactly the processes below its root, each reached by a chain of children
-- that does not pass through `stop`.
use claude_memmon.Prelude.{
  ℕ, zero, suc, true, false, List, [], ◌∷◌, ◌++◌, ◌≡◌, refl, arith, ◌||◌, ◌==◌, ==_iff, ◌⊎◌, inl,
  inr, contains, Bool-cases, ◌↔◌, ◌≢◌, subst, sym, length,
}
use claude_memmon.Procs.Walk.{Proc, children, Walk, push, push_all, walk, full_walk, descendants}
use claude_memmon.Procs.Walk.Bound.{full_walk-empty}

-- `d` is below `root`: a child, or a child of a process below, outside `stop`.
pub data Below (procs : List Proc) (stop : List ℕ) (root : ℕ) : ℕ → Type 0 where
  child :
      {d : ℕ}
      → contains d (children procs root) ≡ true
      → contains d stop ≡ false
      → Below procs stop root d
  deeper :
      {p d : ℕ}
      → Below procs stop root p
      → contains d (children procs p) ≡ true
      → contains d stop ≡ false
      → Below procs stop root d

module _ (procs : List Proc) (stop : List ℕ) where
  -- Every child of a process that was seen and is not on the stack was seen, but for those of `p`
  -- that are still among `ks`.
  Pending : Walk → ℕ → List ℕ → Type 0
  Pending w p ks =
      (q k : ℕ)
      → contains q w.seen ≡ true
      → contains q w.stack ≡ false
      → contains k (children procs q) ≡ true
      → contains k stop ≡ false
      → (contains k w.seen ≡ true) ⊎ (q ≡ p) × (contains k ks ≡ true)

  push-Pending :
      (w : Walk) (p k : ℕ) (ks : List ℕ) → Pending w p (k ∷ ks) → Pending (push stop w k) p ks
  unfolding Pending push
  push-Pending w p k ks h q j seen off kid free = ground (arith, h q j)

  push_all-Pending :
      (w : Walk) (p : ℕ) (ks : List ℕ) → Pending w p ks → Pending (push_all stop w ks) p []
  unfolding push_all
  push_all-Pending w p [] h = h
  push_all-Pending w p (k ∷ ks) h = push_all-Pending (push stop w k) p ks (push-Pending w p k ks h)

  -- Nothing is pending but below the stack.
  Closed : List ℕ → List ℕ → Type 0
  Closed stack seen =
      (q k : ℕ)
      → contains q seen ≡ true
      → contains q stack ≡ false
      → contains k (children procs q) ≡ true
      → contains k stop ≡ false
      → contains k seen ≡ true

  pop-Pending :
      (p : ℕ) (rest out seen : List ℕ)
      → Closed (p ∷ rest) seen
      → Pending (record { out = out; stack = rest; seen = seen }) p (children procs p)
  unfolding Pending Closed
  pop-Pending p rest out seen h q k s off kid free = elim (Bool-cases (q == p)) [
    | inl same ↦ inr ((==_iff q p).0 same, ground arith)
    | inr other ↦ inl (h q k s (ground arith) kid free)
  ]

  Pending-Closed : (w : Walk) (p : ℕ) → Pending w p [] → Closed w.stack w.seen
  unfolding Pending Closed
  Pending-Closed w p h q k s off kid free = ground (arith, h q k s off kid free)

  walk-Closed :
      (fuel : ℕ) (stack out seen : List ℕ)
      → Closed stack seen
      → Closed
          (walk procs stop fuel stack out seen).stack
          (walk procs stop fuel stack out seen).seen
  unfolding walk
  walk-Closed zero stack out seen h = h
  walk-Closed (suc fuel) [] out seen h = h
  walk-Closed (suc fuel) (p ∷ rest) out seen h =
      let w0 : Walk = record { out = out; stack = rest; seen = seen } in
      let w = push_all stop w0 (children procs p) in
      walk-Closed fuel w.stack w.out w.seen (
        Pending-Closed w p
          (push_all-Pending w0 p (children procs p) (pop-Pending p rest out seen h)))

contains-snoc : (d k : ℕ) (xs : List ℕ) → contains d (xs ++ k ∷ []) ≡ (contains d xs || d == k)
contains-snoc d k [] = ground arith
contains-snoc d k (x ∷ xs) = ground (arith, contains-snoc d k xs)

module _ (procs : List Proc) (stop : List ℕ) (root : ℕ) where
  -- All that the walk holds is the root or below it.
  record Sound (w : Walk) : Type 0 where
    found : (d : ℕ) → contains d w.out ≡ true → Below procs stop root d × (d ≢ root)
    stacked : (d : ℕ) → contains d w.stack ≡ true → (d ≡ root) ⊎ Below procs stop root d
    seen_out : (d : ℕ) → contains d w.seen ≡ true → (d ≡ root) ⊎ (contains d w.out ≡ true)
    root_seen : contains root w.seen ≡ true

  Below-of_child :
      (p d : ℕ)
      → (p ≡ root) ⊎ Below procs stop root p
      → contains d (children procs p) ≡ true
      → contains d stop ≡ false
      → Below procs stop root d
  Below-of_child p d (inl e) kid free = child (rw e at kid) free
  Below-of_child p d (inr b) kid free = deeper b kid free

  push-Sound :
      (w : Walk) (k : ℕ)
      → (contains k stop ≡ false → Below procs stop root k)
      → Sound w
      → Sound (push stop w k)
  unfolding push
  push-Sound w k below v = elim (Bool-cases (contains k w.seen || contains k stop)) [
    | inl old ↦ rw old v
    | inr new ↦ rw new (record {
      found = λ d m. elim (Bool-cases (d == k)) [
        | inl same ↦ (
          subst (Below procs stop root) (sym ((==_iff d k).0 same)) (below (ground arith)),
          λ e. ground (arith, (==_iff d k).0 same, v.root_seen),
        )
        | inr other ↦ v.found d (ground (arith, contains-snoc d k w.out))
      ];
      stacked = λ d m. elim (Bool-cases (d == k)) [
        | inl same ↦
            inr (subst (Below procs stop root) (sym ((==_iff d k).0 same)) (below (ground arith)))
        | inr other ↦ v.stacked d (ground arith)
      ];
      seen_out = λ d m. elim (Bool-cases (d == k)) [
        | inl same ↦ inr (ground (arith, contains-snoc d k w.out))
        | inr other ↦ ground (arith, contains-snoc d k w.out, v.seen_out d)
      ];
      root_seen = ground (arith, v.root_seen);
    })
  ]

  push_all-Sound :
      (w : Walk) (ks : List ℕ)
      → ((k : ℕ) → contains k ks ≡ true → contains k stop ≡ false → Below procs stop root k)
      → Sound w
      → Sound (push_all stop w ks)
  unfolding push_all
  push_all-Sound w [] below v = v
  push_all-Sound w (k ∷ ks) below v =
      push_all-Sound (push stop w k) ks (λ j m. below j (ground arith))
        (push-Sound w k (below k (ground arith)) v)

  pop-Sound :
      (p : ℕ) (rest out seen : List ℕ)
      → Sound (record { out = out; stack = p ∷ rest; seen = seen })
      → Sound (record { out = out; stack = rest; seen = seen })
  pop-Sound p rest out seen v = record {
    found = v.found;
    stacked = λ d m. v.stacked d (ground arith);
    seen_out = v.seen_out;
    root_seen = v.root_seen;
  }

  walk-Sound :
      (fuel : ℕ) (stack out seen : List ℕ)
      → Sound (record { out = out; stack = stack; seen = seen })
      → Sound (walk procs stop fuel stack out seen)
  unfolding walk
  walk-Sound zero stack out seen v = v
  walk-Sound (suc fuel) [] out seen v = v
  walk-Sound (suc fuel) (p ∷ rest) out seen v =
      let w0 : Walk = record { out = out; stack = rest; seen = seen } in
      let w = push_all stop w0 (children procs p) in
      walk-Sound fuel w.stack w.out w.seen (
        push_all-Sound w0 (children procs p) (λ k. Below-of_child p k (v.stacked p (ground arith)))
          (pop-Sound p rest out seen v))

  start-Sound : Sound (record { out = []; stack = root ∷ []; seen = root ∷ [] })
  start-Sound = record {
    found = λ d m. cc;
    stacked = λ d m. inl (ground arith);
    seen_out = λ d m. inl (ground arith);
    root_seen = ground arith;
  }

  start-Closed : Closed procs stop (root ∷ []) (root ∷ [])
  unfolding Closed
  start-Closed q k s off kid free = ground arith

  -- At the end everything below the root was seen.
  Below-seen :
      (d : ℕ)
      → Below procs stop root d
      → contains root (full_walk procs stop root).seen ≡ true
      → Closed procs stop [] (full_walk procs stop root).seen
      → contains d (full_walk procs stop root).seen ≡ true
  unfolding Closed
  Below-seen d (child kid free) r closed = closed root d r refl kid free
  Below-seen d (deeper {p = p} b kid free) r closed =
      closed p d (Below-seen p b r closed) refl kid free

full_walk-Sound :
    (procs : List Proc) (stop : List ℕ) (root : ℕ)
    → Sound procs stop root (full_walk procs stop root)
unfolding full_walk
full_walk-Sound procs stop root =
    walk-Sound procs stop root (suc (suc (length procs))) (root ∷ []) [] (root ∷ [])
      (start-Sound procs stop root)

full_walk-Closed :
    (procs : List Proc) (stop : List ℕ) (root : ℕ)
    → Closed procs stop [] (full_walk procs stop root).seen
full_walk-Closed procs stop root =
    subst (λ st. Closed procs stop st (full_walk procs stop root).seen)
      (full_walk-empty procs stop root)
      (unfold full_walk in
        walk-Closed procs stop (suc (suc (length procs))) (root ∷ []) [] (root ∷ [])
          (start-Closed procs stop root))

-- A pid is among the descendants of `root` exactly when it is another process below it, reached by
-- a chain of children that passes through no pid of `stop`. The walk ends on every process table,
-- with cycles among the parents too.
pub descendants-Below :
    (procs : List Proc) (stop : List ℕ) (root d : ℕ)
    → (contains d (descendants procs stop root) ≡ true) ↔ (Below procs stop root d × (d ≢ root))
unfolding descendants
descendants-Below procs stop root d =
    let v = full_walk-Sound procs stop root in
    (
      v.found d,
      λ h.
          elim (v.seen_out d
            (Below-seen procs stop root d h.0 v.root_seen (full_walk-Closed procs stop root))) [
              | inl e ↦ absurd (h.1 e)
              | inr m ↦ m
            ],
    )
