-- ===== src/Runner/Estimate.antt =====
-- memmon_runner.py, `estimate_for`, `record_peak` and `touch_peaks`: what a job is expected to
-- need, learned from the peaks of earlier runs with the same key.
-- Footprints are taken to be below 2 ^ 50, so they are floats, and so is 1.5 times one.
pub mod Bounded
pub mod Kept
use claude_memmon.Prelude.{
  ℕ, zero, suc, ◌+◌, ◌%◌, ◌||◌, ◌&&◌, ◌*◌, ◌/◌, ◌-◌, max, String, Bool, Option, none, some, List,
  [], ◌∷◌, ◌++◌, map, ltb, leb, ◌==◌, str_eq, get_or, is_some, if◌then◌else◌, length, keep, drop,
  take,
}
use claude_memmon.Runner.Jobs.{default_estimate}

abbrev pub peaks_keep : ℕ
peaks_keep = 10

abbrev pub peaks_keys : ℕ
peaks_keys = 200

-- A key's row of job-peaks.json.
pub record PeakRow : Type 0 where
  pub peaks : List ℕ
  pub used : ℕ

-- The `keys` of job-peaks.json, in insertion order.
abbrev pub Peaks : Type 0
Peaks = List (String × PeakRow)

unfoldable pub lookup : String → Peaks → Option PeakRow
lookup key [] = none
lookup key ((k, row) ∷ rest) = if str_eq k key then some row else lookup key rest

-- `keys[key] = row`: in place, or behind the others.
unfoldable pub insert : String → PeakRow → Peaks → Peaks
insert key row [] = (key, row) ∷ []
insert key row ((k, old) ∷ rest) =
    if str_eq k key then (k, row) ∷ rest else (k, old) ∷ insert key row rest

pub data Confidence : Type 0 where
  reserved learned low unknown : Confidence

pub record Estimate : Type 0 where
  pub bytes : ℕ
  pub confidence : Confidence
  pub samples : Option ℕ

-- `max(vals)` of a list that has an element.
unfoldable pub maximum : List ℕ → ℕ
maximum [] = 0
maximum (x ∷ xs) = max x (maximum xs)

-- `[v for v in … if v > 0]`
abbrev pub positive : List ℕ → List ℕ
positive vals = keep (λ v. ltb 0 v) vals

abbrev pub peaks_of : Option PeakRow → List ℕ
peaks_of none = []
peaks_of (some row) = row.peaks

-- The float 1.15 is `margin / mantissa`, of which the divisor is 2 ^ 52.
abbrev pub margin : ℕ
margin = 5179139571476070

abbrev pub mantissa : ℕ
mantissa = 4503599627370496

-- The distance of the floats around `p`, at least `u`: the greatest of the doubles of `u` that still
-- leaves the float its 53 bits. A product of two floats has 106 bits, so it is doubled 53 times at
-- most.
unfoldable pub spacing : ℕ → ℕ → ℕ → ℕ
spacing zero u p = u
spacing (suc fuel) u p =
    let rest = spacing fuel (2 * u) p in if leb (mantissa * (2 * u)) p then rest else u

-- `p / u` to the nearest whole number, of two that are equally near to the even one.
unfoldable pub half_even : ℕ → ℕ → ℕ
half_even p u =
    let q = p / u in
    let r = p % u in if ltb (2 * r) u || ((2 * r == u) && (q % 2 == 0)) then q else q + 1

-- `int(m * 1.15)`, with the product rounded to a float.
unfoldable pub times_margin : ℕ → ℕ
times_margin m = let p = m * margin in let u = spacing 64 1 p in u * half_even p u / mantissa

unfoldable pub estimate_from : List ℕ → Estimate
estimate_from vals =
    if leb 3 (length vals)
    then record {
      bytes = times_margin (maximum vals);
      confidence = learned;
      samples = some (length vals);
    }
    else if leb 1 (length vals)
    then record {
      bytes = max default_estimate (maximum vals * 3 / 2);
      confidence = low;
      samples = some (length vals);
    }
    else record { bytes = default_estimate; confidence = unknown; samples = some 0 }

unfoldable pub estimate_for : Peaks → String → Option ℕ → Estimate
estimate_for peaks key (some reserve) = record {
  bytes = reserve;
  confidence = reserved;
  samples = none;
}
estimate_for peaks key none = estimate_from (positive (peaks_of (lookup key peaks)))

-- `xs[-n:]`
abbrev pub last : ℕ → List ℕ → List ℕ
last n xs = drop (length xs - n) xs

-- `sorted(keys, key=lambda k: -used)`: stable, the most recently used first.
unfoldable pub insert_by_use : String × PeakRow → Peaks → Peaks
insert_by_use entry [] = entry ∷ []
insert_by_use entry (e ∷ rest) =
    if leb e.1.used entry.1.used then entry ∷ e ∷ rest else e ∷ insert_by_use entry rest

unfoldable pub sort_by_use : Peaks → Peaks
sort_by_use [] = []
sort_by_use (e ∷ rest) = insert_by_use e (sort_by_use rest)

-- At most PEAKS_KEYS keys, the least recently used dropped.
unfoldable pub evict : Peaks → Peaks
evict keys = if ltb peaks_keys (length keys) then take peaks_keys (sort_by_use keys) else keys

unfoldable pub record_peak : String → ℕ → ℕ → Peaks → Peaks
record_peak key peak now keys = evict (
    insert key
      (record { peaks = last peaks_keep (peaks_of (lookup key keys) ++ peak ∷ []); used = now })
      keys)

unfoldable pub touch_peaks : String → ℕ → Peaks → Peaks
touch_peaks key now keys = elim (lookup key keys) [
  | none ↦ keys
  | some row ↦ insert key (record row { used = now }) keys
]
