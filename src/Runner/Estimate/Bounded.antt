-- ===== src/Runner/Estimate/Bounded.antt =====
-- job-peaks.json stays within its bounds.
use claude_memmon.Prelude.{
  ℕ, zero, suc, ◌-◌, ◌≤◌, String, List, [], ◌∷◌, ◌++◌, arith, All, length, take, length-take_le,
  length-drop, str_eq, ltb, leb, Bool-cases, inl, inr,
}
use claude_memmon.Runner.Estimate.{
  peaks_keep, peaks_keys, PeakRow, Peaks, lookup, insert, peaks_of, last, insert_by_use,
  sort_by_use, evict, record_peak,
}

length-last : (xs : List ℕ) → length (last peaks_keep xs) ≤ peaks_keep
length-last xs = omega (arith, length-drop (length xs - peaks_keep) xs)

abbrev pub IsBounded : Peaks → Type 0
IsBounded keys = All (λ x. length x.1.peaks ≤ peaks_keep) keys

insert-IsBounded :
    (key : String) (row : PeakRow) (keys : Peaks)
    → length row.peaks ≤ peaks_keep
    → IsBounded keys
    → IsBounded (insert key row keys)
unfolding insert
insert-IsBounded key row [] h all = (h, tt)
insert-IsBounded key row ((k, old) ∷ rest) h (h', all) = elim (Bool-cases (str_eq k key)) [
  | inl same ↦ rw same (h, all)
  | inr other ↦ rw other (h', insert-IsBounded key row rest h all)
]

insert_by_use-IsBounded :
    (e : String × PeakRow) (l : Peaks)
    → length e.1.peaks ≤ peaks_keep
    → IsBounded l
    → IsBounded (insert_by_use e l)
unfolding insert_by_use
insert_by_use-IsBounded e [] h all = (h, tt)
insert_by_use-IsBounded e (x ∷ l) h (h', all) = elim (Bool-cases (leb x.1.used e.1.used)) [
  | inl first ↦ rw first (h, (h', all))
  | inr later ↦ rw later (h', insert_by_use-IsBounded e l h all)
]

sort_by_use-IsBounded : (l : Peaks) → IsBounded l → IsBounded (sort_by_use l)
unfolding sort_by_use
sort_by_use-IsBounded [] all = tt
sort_by_use-IsBounded (e ∷ l) (h, all) =
    insert_by_use-IsBounded e (sort_by_use l) h (sort_by_use-IsBounded l all)

take-IsBounded : (n : ℕ) (l : Peaks) → IsBounded l → IsBounded (take n l)
take-IsBounded zero l all = tt
take-IsBounded (suc n) [] all = tt
take-IsBounded (suc n) (e ∷ l) (h, all) = (h, take-IsBounded n l all)

evict-IsBounded : (keys : Peaks) → IsBounded keys → IsBounded (evict keys)
unfolding evict
evict-IsBounded keys all = elim (Bool-cases (ltb peaks_keys (length keys))) [
  | inl full ↦
      rw full (take-IsBounded peaks_keys (sort_by_use keys) (sort_by_use-IsBounded keys all))
  | inr room ↦ rw room all
]

length-evict : (keys : Peaks) → length (evict keys) ≤ peaks_keys
unfolding evict
length-evict keys = ground (arith, length-take_le peaks_keys (sort_by_use keys))

-- job-peaks.json holds at most 200 keys after a peak is recorded, and no key ever holds more than
-- its last 10 peaks.
pub record_peak_bounds :
    (key : String) (peak now : ℕ) (keys : Peaks)
    → IsBounded keys
    → (length (record_peak key peak now keys) ≤ peaks_keys)
      × IsBounded (record_peak key peak now keys)
unfolding record_peak
record_peak_bounds key peak now keys all =
    let old = peaks_of (lookup key keys) in
    let kept = last peaks_keep (old ++ peak ∷ []) in
    let row : PeakRow = record { peaks = kept; used = now } in
    (
      length-evict (insert key row keys),
      evict-IsBounded (insert key row keys)
          (insert-IsBounded key row keys (length-last (old ++ peak ∷ [])) all),
    )
