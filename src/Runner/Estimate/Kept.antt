-- ===== src/Runner/Estimate/Kept.antt =====
-- What is kept of the recorded peaks, and that an estimate covers the peak just recorded.
use native.Mathlib.Nat.{mod-lt, div-add-mod}
use claude_memmon.Prelude.{
  ◌==◌, ◌||◌, ◌&&◌, Memᴰ, ℕ, ◌*◌, ◌/◌, ◌%◌, ◌+◌, ◌⊎◌, zero, suc, ◌-◌, ◌≤◌, ◌<◌, String, none, some,
  List, [], ◌∷◌, ◌++◌, ◌≡◌, refl, arith, All, length, take, drop, length-append, str_eq, eq_iff,
  eq_refl, ltb, leb, Bool-cases, inl, inr,
}
use claude_memmon.Runner.Estimate.{
  peaks_keep, peaks_keys, PeakRow, Peaks, lookup, insert, maximum, positive, peaks_of, margin,
  mantissa, spacing, half_even, times_margin, estimate_from, estimate_for, last, insert_by_use,
  sort_by_use, evict, record_peak,
}

module _ (e : String × PeakRow) where
  abbrev Older : String × PeakRow → Type 0
  Older x = x.1.used < e.1.used

  -- `e` stands in the list, and all others were used before it.
  data Top : Peaks → Type 0 where
    here : {rest : Peaks} → All Older rest → Top (e ∷ rest)
    there : {x : String × PeakRow} {rest : Peaks} → Older x → Top rest → Top (x ∷ rest)

  insert_by_use-All :
      (x : String × PeakRow) (l : Peaks) → Older x → All Older l → All Older (insert_by_use x l)
  unfolding insert_by_use
  insert_by_use-All x [] h all = (h, tt)
  insert_by_use-All x (y ∷ l) h (hy, all) = elim (Bool-cases (leb y.1.used x.1.used)) [
    | inl first ↦ rw first (h, (hy, all))
    | inr later ↦ rw later (hy, insert_by_use-All x l h all)
  ]

  sort_by_use-All : (l : Peaks) → All Older l → All Older (sort_by_use l)
  unfolding sort_by_use
  sort_by_use-All [] all = tt
  sort_by_use-All (x ∷ l) (h, all) = insert_by_use-All x (sort_by_use l) h (sort_by_use-All l all)

  insert_by_use-first : (l : Peaks) → All Older l → insert_by_use e l ≡ e ∷ l
  unfolding insert_by_use
  insert_by_use-first [] all = refl
  insert_by_use-first (y ∷ l) (h, all) = ground arith

  insert_by_use-behind :
      (x : String × PeakRow) (l : Peaks) → Older x → insert_by_use x (e ∷ l) ≡ e ∷ insert_by_use x l
  unfolding insert_by_use
  insert_by_use-behind x l h = ground arith

  -- The newest entry is sorted to the front.
  sort_by_use-Top : {l : Peaks} → Top l → (rest : Peaks) × (sort_by_use l ≡ e ∷ rest)
  unfolding sort_by_use
  sort_by_use-Top (here {rest = l} all) =
      (sort_by_use l, insert_by_use-first (sort_by_use l) (sort_by_use-All l all))
  sort_by_use-Top (there {x = x} {rest = l} h top) =
      let (rest, e') = sort_by_use-Top top in
      (insert_by_use x rest, rw e' (insert_by_use-behind x rest h))

insert-Top :
    (key : String) (row : PeakRow) (keys : Peaks)
    → All (λ x. x.1.used < row.used) keys
    → Top (key, row) (insert key row keys)
unfolding insert
insert-Top key row [] all = here tt
insert-Top key row ((k, old) ∷ rest) (h, all) = elim (Bool-cases (str_eq k key)) [
  | inl same ↦ rw (same, (eq_iff k key).0 same) (here all)
  | inr other ↦ rw other (there h (insert-Top key row rest all))
]

lookup-Top :
    (key : String) (row : PeakRow) (l rest : Peaks)
    → l ≡ (key, row) ∷ rest
    → lookup key (take peaks_keys l) ≡ some row
unfolding lookup
lookup-Top key row l rest e = rw e (rw eq_refl refl)

lookup-insert_self :
    (key : String) (row : PeakRow) (keys : Peaks) → lookup key (insert key row keys) ≡ some row
unfolding lookup insert
lookup-insert_self key row [] = rw eq_refl refl
lookup-insert_self key row ((k, old) ∷ rest) =
    ground (arith, eq_refl key, lookup-insert_self key row rest)

-- Eviction never drops the entry that was just used.
lookup-evict :
    (key : String) (row : PeakRow) (keys : Peaks)
    → All (λ x. x.1.used < row.used) keys
    → lookup key (evict (insert key row keys)) ≡ some row
unfolding evict
lookup-evict key row keys older =
    elim (Bool-cases (ltb peaks_keys (length (insert key row keys)))) [
      | inl full ↦
          let (rest, e) = sort_by_use-Top (key, row) (insert-Top key row keys older) in
          rw full (lookup-Top key row (sort_by_use (insert key row keys)) rest e)
      | inr room ↦ rw room (lookup-insert_self key row keys)
    ]

maximum-positive : (xs : List ℕ) → maximum (positive xs) ≡ maximum xs
unfolding maximum
maximum-positive [] = refl
maximum-positive (x ∷ xs) = ground (arith, maximum-positive xs)

-- The last element survives a drop that leaves anything.
maximum-drop_snoc :
    (n : ℕ) (xs : List ℕ) (p : ℕ) → n ≤ length xs → p ≤ maximum (drop n (xs ++ p ∷ []))
unfolding maximum
maximum-drop_snoc zero [] p h = omega arith
maximum-drop_snoc zero (x ∷ xs) p h = omega (arith, maximum-drop_snoc zero xs p (omega arith))
maximum-drop_snoc (suc n) [] p h = absurd (omega arith)
maximum-drop_snoc (suc n) (x ∷ xs) p h = maximum-drop_snoc n xs p (omega arith)

maximum-last : (xs : List ℕ) (p : ℕ) → p ≤ maximum (last peaks_keep (xs ++ p ∷ []))
maximum-last xs p =
    maximum-drop_snoc (length (xs ++ p ∷ []) - peaks_keep) xs p
      (omega (arith, length-append xs (p ∷ [])))

maximum-nil : (xs : List ℕ) → length xs ≡ 0 → maximum xs ≡ 0
unfolding maximum
maximum-nil [] h = refl
maximum-nil (x ∷ xs) h = absurd (omega arith)

-- The spacing is one, or fits its 53 bits.
spacing-fits :
    (fuel u p : ℕ)
    → (u ≡ 1) ⊎ (mantissa * u ≤ p)
    → (spacing fuel u p ≡ 1) ⊎ (mantissa * spacing fuel u p ≤ p)
unfolding spacing
spacing-fits zero u p h = h
spacing-fits (suc fuel) u p h = elim (Bool-cases (leb (mantissa * (2 * u)) p)) [
  | inl more ↦ rw more (spacing-fits fuel (2 * u) p (inr (ground arith)))
  | inr stop ↦ rw stop h
]

spacing-pos : (fuel u p : ℕ) → 1 ≤ u → 1 ≤ spacing fuel u p
unfolding spacing
spacing-pos zero u p h = h
spacing-pos (suc fuel) u p h = ground (arith, spacing-pos fuel (2 * u) p (omega arith))

-- Rounding to a multiple of `u` loses less than `u`, and nothing where `u` is one.
half_even-ge : (p u : ℕ) → 1 ≤ u → p < u * half_even p u + u
unfolding half_even
half_even-ge p u h =
    let split = div-add-mod p u in
    let small = mod-lt p {m = u} h in
    elim (Bool-cases (ltb (2 * (p % u)) u || ((2 * (p % u) == u) && (p / u % 2 == 0)))) [
      | inl down ↦ rw down (omega arith)
      | inr up ↦ rw up (omega arith)
    ]

half_even-one : (p : ℕ) → p ≤ 1 * half_even p 1
unfolding half_even
half_even-one p = ground arith

-- The rounded product is at least its factor.
times_margin-ge : (m : ℕ) → m ≤ times_margin m
unfolding times_margin
times_margin-ge m =
    let p = m * margin in
    elim (spacing-fits 64 1 p (inl refl)) [
      | inl e ↦ rw e (omega (arith, half_even-one p))
      | inr fits ↦
          omega (arith, fits, half_even-ge p (spacing 64 1 p) (spacing-pos 64 1 p (omega arith)))
    ]

estimate_from-ge : (vals : List ℕ) → maximum vals ≤ (estimate_from vals).bytes
unfolding estimate_from
estimate_from-ge vals = ground (arith, maximum-nil vals, times_margin-ge (maximum vals))

drop_snoc-Mem : (n : ℕ) (xs : List ℕ) (p : ℕ) → n ≤ length xs → Memᴰ p (drop n (xs ++ p ∷ []))
drop_snoc-Mem zero [] p h = Memᴰ.head refl
drop_snoc-Mem zero (x ∷ xs) p h = Memᴰ.tail (drop_snoc-Mem zero xs p (omega arith))
drop_snoc-Mem (suc n) [] p h = absurd (omega arith)
drop_snoc-Mem (suc n) (x ∷ xs) p h = drop_snoc-Mem n xs p (omega arith)

last-Mem : (xs : List ℕ) (p : ℕ) → Memᴰ p (last peaks_keep (xs ++ p ∷ []))
last-Mem xs p =
    drop_snoc-Mem (length (xs ++ p ∷ []) - peaks_keep) xs p
      (omega (arith, length-append xs (p ∷ [])))

-- A peak that is recorded later than every key was used is on record afterwards, whatever is
-- evicted for it: the entry of its key was used now, and holds the peak behind what it held, or the
-- newest part of that. The next estimate for the key is at least that peak.
pub estimate_for-record_peak :
    (key : String) (peak now : ℕ) (keys : Peaks)
    → All (λ x. x.1.used < now) keys
    → (row : PeakRow) × (lookup key (record_peak key peak now keys) ≡ some row)
      × (row.used ≡ now)
      × Memᴰ peak row.peaks
      × (row.peaks ≡ last peaks_keep (peaks_of (lookup key keys) ++ peak ∷ []))
      × (peak ≤ (estimate_for (record_peak key peak now keys) key none).bytes)
unfolding estimate_for record_peak
estimate_for-record_peak key peak now keys older =
    let old = peaks_of (lookup key keys) in
    let kept = last peaks_keep (old ++ peak ∷ []) in
    let row : PeakRow = record { peaks = kept; used = now } in
    let there = lookup-evict key row keys older in
    (
      row,
      there,
      refl,
      last-Mem old peak,
      refl,
      rw there (
          omega (
            arith,
            maximum-last old peak,
            maximum-positive kept,
            estimate_from-ge (positive kept),
          )),
    )
