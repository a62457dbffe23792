-- ===== src/Raft/Snapshots/Compaction.antt =====
-- Compaction keeps every entry that is not applied yet.
use mimori.Prelude.{
  List, Option, Option-cases, arith, drop, drop-drop, inl, inr, le→ltb, none, refl, some, suc, sym,
  ℕ, ◌+◌, ◌-◌, ◌<◌, ◌∙◌, ◌≡◌, ◌≤◌,
}
use mimori.Raft.Disk.{save_snapshot}
use mimori.Raft.Invariant.{WellFormed}
use mimori.Raft.Log.{entry_at, slice_from}
use mimori.Raft.Log.Contiguous.{Contiguous, entries_after-drop}
use mimori.Raft.Snapshots.{compact, compacted, create_snapshot}
use mimori.Raft.State.{Bytes, LogEntry, Raft, Snapshot}

pub slice_from-above :
    (r : Raft) (idx : ℕ)
    → r.log_base_index ≤ idx
    → slice_from r idx ≡ drop (idx - r.log_base_index) r.log
unfolding slice_from
slice_from-above r idx le = rw (le→ltb idx r.log_base_index le) refl

drop-compacted :
    (base index term idx : ℕ) (log : List LogEntry)
    → Contiguous base log
    → base ≤ index
    → index < idx
    → drop (idx - index) (compacted index term log) ≡ drop (idx - base) log
unfolding compacted
drop-compacted base index term idx log h le lt =
    let one_past : idx - index ≡ suc (idx - suc index) = omega arith in
    let total : (suc index - base) + (idx - suc index) ≡ idx - base = omega arith in
    rw
      (
        one_past,
        entries_after-drop index base log h (omega arith),
        drop-drop (idx - suc index) (suc index - base) log,
        total,
      )
      refl

indices-compact :
    (snap : Snapshot) (s : Raft)
    → ((compact snap s).commit_index ≡ s.commit_index)
      × ((compact snap s).last_applied ≡ s.last_applied)
unfolding compact
indices-compact snap s = (refl, refl)

slice_from-compact :
    (snap : Snapshot) (r : Raft) (idx : ℕ)
    → WellFormed r
    → r.log_base_index ≤ snap.last_included_index
    → snap.last_included_index < idx
    → slice_from (compact snap r) idx ≡ slice_from r idx
unfolding compact
slice_from-compact snap r idx v le lt =
    slice_from-above (compact snap r) idx (omega arith)
    ∙ (drop-compacted r.log_base_index snap.last_included_index snap.last_included_term idx r.log
          v.contiguous le lt
        ∙ sym (slice_from-above r idx (omega arith)))

-- A snapshot on a well-formed node keeps the entries from any index past the last applied one, the commit
-- index and the last applied index, whether the snapshot can be taken and saved or not.
pub slice_from-create_snapshot :
    (now : ℕ) (bytes : Option Bytes) (r : Raft) (idx : ℕ)
    → WellFormed r
    → r.last_applied < idx
    → (slice_from (create_snapshot now bytes r) idx ≡ slice_from r idx)
      × ((create_snapshot now bytes r).commit_index ≡ r.commit_index)
      × ((create_snapshot now bytes r).last_applied ≡ r.last_applied)
unfolding create_snapshot
slice_from-create_snapshot now bytes r idx v lt = elim (Option-cases (entry_at r r.last_applied)) [
  | inl missing ↦ ground arith
  | inr (entry, found) ↦ taken entry found bytes
]
  where
    taken :
        (entry : LogEntry)
        → entry_at r r.last_applied ≡ some entry
        → (bytes : Option Bytes)
        → (slice_from (create_snapshot now bytes r) idx ≡ slice_from r idx)
          × ((create_snapshot now bytes r).commit_index ≡ r.commit_index)
          × ((create_snapshot now bytes r).last_applied ≡ r.last_applied)
    taken entry found none = ground arith
    taken entry found (some b) =
        let snap : Snapshot = record {
          last_included_index = r.last_applied;
          last_included_term = entry.term;
          created_at = now;
          bytes = b;
        } in
        let saved = record r { disk = (save_snapshot r.disk snap).0 } in
        let kept =
          slice_from-compact snap saved idx
            (record {
              contiguous = v.contiguous;
              has_dummy = v.has_dummy;
              base_applied = v.base_applied;
              applied_committed = v.applied_committed;
              committed_in_log = v.committed_in_log;
            })
            v.base_applied lt in
        let whole : slice_from saved idx ≡ slice_from r idx = unfold slice_from in refl in
        ground (arith, kept, whole, indices-compact snap saved)
