-- ===== src/Owners/History/Recent.antt =====
-- What the history of the owners keeps.
use claude_memmon.Prelude.{
  ℕ, ◌≤◌, ◌≡◌, String, Option, none, some, List, [], ◌∷◌, ◌⊎◌, inl, inr, refl, arith, All,
  Bool-cases, ltb, str_eq, length, take, drop, sort_by, sort_by-All, sort_by-Descending, take-All,
  take-Largest, length-take_le,
}
use claude_memmon.Owners.Runaway.{Sample, add_sample, history_max_samples}
use claude_memmon.Owners.History.{
  Seen, note_owner, note_owners, last_bytes, by_recency, keep_recent, update_history,
  history_max_owners,
}

-- At most 60 samples.
abbrev pub IsShort : Seen → Type 0
IsShort o = length o.samples ≤ history_max_samples

length-add_sample :
    (ts fp : ℕ) (samples : List Sample)
    → length (add_sample ts (some fp) samples) ≤ history_max_samples
unfolding add_sample
length-add_sample ts fp samples =
    length-take_le history_max_samples (record { ts = ts; bytes = fp } ∷ samples)

note_owner-All :
    (ts : ℕ) (oid : String) (fp : ℕ) (os : List Seen)
    → All IsShort os
    → All IsShort (note_owner ts oid fp os)
unfolding note_owner
note_owner-All ts oid fp [] all = (length-add_sample ts fp [], tt)
note_owner-All ts oid fp (o ∷ os) (h, all) = elim (Bool-cases (str_eq o.owner_id oid)) [
  | inl same ↦ rw (note_owner, same) (length-add_sample ts fp o.samples, all)
  | inr other ↦ rw (note_owner, other) (h, note_owner-All ts oid fp os all)
]

note_owners-All :
    (ts : ℕ) (fps : List (String × Option ℕ)) (os : List Seen)
    → All IsShort os
    → All IsShort (note_owners ts fps os)
unfolding note_owners
note_owners-All ts [] os all = all
note_owners-All ts ((oid, none) ∷ fps) os all = note_owners-All ts fps os all
note_owners-All ts ((oid, some fp) ∷ fps) os all =
    note_owners-All ts fps (note_owner ts oid fp os) (note_owner-All ts oid fp os all)

-- Of two owners the one that is kept was seen no earlier than the one that is dropped.
abbrev pub LeavesOlder : List Seen → Type 0
LeavesOlder owners =
    All (λ x. All (λ y. y.last_seen ≤ x.last_seen) (drop history_max_owners (by_recency owners)))
      (take history_max_owners (by_recency owners))

-- After a tick the history has at most 200 owners, each with at most 60 samples where that held
-- before. It is the owners as noted where there are no more of them, and otherwise the first 200 by
-- recency, of which each was seen no earlier than any that is dropped.
pub update_history-Recent :
    (hist : List Seen) (fps : List (String × Option ℕ)) (ts : ℕ)
    → All IsShort hist
    → (length (update_history hist fps ts) ≤ history_max_owners)
      × All IsShort (update_history hist fps ts)
      × ((update_history hist fps ts ≡ note_owners ts fps hist)
          ⊎ (update_history hist fps ts
              ≡ take history_max_owners (by_recency (note_owners ts fps hist)))
            × LeavesOlder (note_owners ts fps hist))
unfolding update_history keep_recent by_recency
update_history-Recent hist fps ts all =
    let os = note_owners ts fps hist in
    let short = note_owners-All ts fps hist all in
    let bytes = sort_by last_bytes os in
    elim (Bool-cases (ltb history_max_owners (length os))) [
      | inr few ↦ rw few (ground arith, short, inl refl)
      | inl many ↦ rw many (
        length-take_le history_max_owners (by_recency os),
        take-All IsShort history_max_owners (by_recency os) (
            sort_by-All (λ (o : Seen). o.last_seen) IsShort bytes
              (sort_by-All last_bytes IsShort os short)),
        inr (
          refl,
          take-Largest (λ (o : Seen). o.last_seen) history_max_owners (by_recency os)
              (sort_by-Descending (λ (o : Seen). o.last_seen) bytes),
        ),
      )
    ]
