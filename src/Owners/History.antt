-- ===== src/Owners/History.antt =====
-- memmon_owners.py, `update_history`. Samples are kept newest first, the end of
-- the source's list, and times are exact where the source rounds them to a tenth of a second.
pub mod Recent
use claude_memmon.Prelude.{
  ℕ, ◌+◌, ◌-◌, ◌*◌, ◌/◌, String, Bool, true, false, Option, none, some, List, [], ◌∷◌, map, ltb,
  str_eq, if◌then◌else◌, length, take, sort_by, max,
}
use claude_memmon.Telemetry.Units.{seconds}
use claude_memmon.Telemetry.Rates.{Change, change}
use claude_memmon.Owners.Runaway.{Sample, add_sample, Episode, Episodes}

abbrev pub history_max_owners : ℕ
history_max_owners = 200

-- An entry of `owners`.
pub record Seen : Type 0 where
  pub owner_id : String
  pub last_seen : ℕ
  pub samples : List Sample

-- `owners[oid] = …` with a new sample.
unfoldable pub note_owner : ℕ → String → ℕ → List Seen → List Seen
note_owner ts oid fp [] =
    record { owner_id = oid; last_seen = ts; samples = add_sample ts (some fp) [] } ∷ []
note_owner ts oid fp (o ∷ os) =
    let rest = note_owner ts oid fp os in
    if str_eq o.owner_id oid
    then record { owner_id = oid; last_seen = ts; samples = add_sample ts (some fp) o.samples } ∷ os
    else o ∷ rest

-- The loop over the footprints; an owner that was not measured gets no sample.
unfoldable pub note_owners : ℕ → List (String × Option ℕ) → List Seen → List Seen
note_owners ts [] owners = owners
note_owners ts ((oid, fp) ∷ fps) owners =
    note_owners ts fps (elim fp [ none ↦ owners | some bytes ↦ note_owner ts oid bytes owners ])

-- `(owners[k]["samples"] or [[0, 0]])[-1][1]`
abbrev pub last_bytes : Seen → ℕ
last_bytes o = elim o.samples [ [] ↦ 0 | s ∷ ss ↦ s.bytes ]

-- `sorted` by the pair: both sorts are stable.
unfoldable pub by_recency : List Seen → List Seen
by_recency owners = sort_by (λ (o : Seen). o.last_seen) (sort_by last_bytes owners)

unfoldable pub keep_recent : List Seen → List Seen
keep_recent owners =
    if ltb history_max_owners (length owners)
    then take history_max_owners (by_recency owners)
    else owners

-- `update_history`
unfoldable pub update_history : List Seen → List (String × Option ℕ) → ℕ → List Seen
update_history hist fps ts = keep_recent (note_owners ts fps hist)
