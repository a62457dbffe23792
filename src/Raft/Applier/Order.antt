-- ===== src/Raft/Applier/Order.antt =====
-- The apply loop sends the committed entries, each once and in order.
use mimori.Prelude.{
  Bool-cases, Option, ap, arith, drop, drop-get_elem?, get_elem?, inl, inr, ltb, refl, some, subst,
  suc, sym, take, zero, ℕ, ◌+◌, ◌-◌, ◌<◌, ◌∙◌, ◌∷◌, ◌≡◌, ◌≤◌,
}
use mimori.Raft.Applier.{apply_loop, snapshot_if_due, take_next}
use mimori.Raft.Config.{handle_config_change_if_needed}
use mimori.Raft.Invariant.{WellFormed, entry_at-some, last_log_index-eq}
use mimori.Raft.Log.{entry_at, slice_from}
use mimori.Raft.Machine.Indices.{WellFormed-snapshot_if_due}
use mimori.Raft.Machine.SameLog.{SameLog, SameLog-handle_config_change, WellFormed-SameLog}
use mimori.Raft.Snapshots.Compaction.{slice_from-above, slice_from-create_snapshot}
use mimori.Raft.State.{Bytes, LogEntry, Raft}

slice_from-cons :
    (r : Raft) (idx : ℕ) (e : LogEntry)
    → entry_at r idx ≡ some e
    → slice_from r idx ≡ e ∷ slice_from r (suc idx)
unfolding entry_at
slice_from-cons r idx e q = elim (Bool-cases (ltb idx r.log_base_index)) [
  | inl below ↦ cc (q, below)
  | inr inside ↦
      let le : r.log_base_index ≤ idx = ground arith in
      let found : get_elem? r.log (idx - r.log_base_index) ≡ some e = rw inside at q in
      let next : suc (idx - r.log_base_index) ≡ suc idx - r.log_base_index = omega arith in
      slice_from-above r idx le
      ∙ (drop-get_elem? (idx - r.log_base_index) r.log e found
          ∙ ap (◌∷◌ e)
              (ap (λ k. drop k r.log) next ∙ sym (slice_from-above r (suc idx) (omega arith))))
]

-- One round of the loop: what is sent, and what the rest of the loop starts from.
record Round (r : Raft) (now : ℕ) (bytes : Option Bytes) : Type 0 where
  entry : LogEntry
  after : Raft
  taken : take_next now r ≡ some (entry, after)
  first : slice_from r (suc r.last_applied) ≡ entry ∷ slice_from r (suc (suc r.last_applied))
  kept :
      slice_from (snapshot_if_due now bytes after) (suc (suc r.last_applied))
      ≡ slice_from r (suc (suc r.last_applied))
  commit_kept : (snapshot_if_due now bytes after).commit_index ≡ r.commit_index
  advanced : (snapshot_if_due now bytes after).last_applied ≡ suc r.last_applied
  still : WellFormed (snapshot_if_due now bytes after)

slice_from-SameLog : (r s : Raft) (idx : ℕ) → SameLog r s → slice_from s idx ≡ slice_from r idx
unfolding slice_from
slice_from-SameLog r s idx same = rw (same.log, same.log_base_index) refl

snapshot_if_due-keeps :
    (now : ℕ) (bytes : Option Bytes) (r : Raft) (idx : ℕ)
    → WellFormed r
    → r.last_applied < idx
    → (slice_from (snapshot_if_due now bytes r) idx ≡ slice_from r idx)
      × ((snapshot_if_due now bytes r).commit_index ≡ r.commit_index)
      × ((snapshot_if_due now bytes r).last_applied ≡ r.last_applied)
unfolding snapshot_if_due
snapshot_if_due-keeps now bytes r idx v lt =
    ground (arith, slice_from-create_snapshot now bytes r idx v lt)

one-Round :
    (r : Raft) (now : ℕ) (bytes : Option Bytes)
    → WellFormed r
    → r.last_applied < r.commit_index
    → Round r now bytes
unfolding take_next
one-Round r now bytes v due =
    let a = r.last_applied in
    let (entry, found) =
      entry_at-some r (a + 1) v (omega (arith, v.base_applied))
        (omega (arith, v.committed_in_log, last_log_index-eq r v)) in
    let marked = record r { last_applied = a + 1 } in
    let after = handle_config_change_if_needed now entry marked in
    let same = SameLog-handle_config_change now entry marked in
    let marked_v : WellFormed marked = record {
      contiguous = v.contiguous;
      has_dummy = v.has_dummy;
      base_applied = omega (arith, v.base_applied);
      applied_committed = omega arith;
      committed_in_log = v.committed_in_log;
    } in
    let after_v = WellFormed-SameLog marked after same marked_v in
    let (slice_kept, commit_kept, applied_kept) =
      snapshot_if_due-keeps now bytes after (suc (suc a)) after_v
        (omega (arith, same.last_applied)) in
    record {
      entry = entry;
      after = after;
      taken = ground arith;
      first =
          slice_from-cons r (suc a) entry
            (subst (λ k. entry_at r k ≡ some entry) (omega arith) found);
      kept =
          slice_kept
          ∙ (slice_from-SameLog marked after (suc (suc a)) same ∙ unfold slice_from in refl);
      commit_kept = commit_kept ∙ same.commit_index;
      advanced = omega (arith, applied_kept, same.last_applied);
      still = WellFormed-snapshot_if_due now bytes after after_v;
    }

-- With one round of fuel for each committed entry that is not applied yet, and nothing else running, the
-- apply loop of a well-formed node sends exactly these entries in the order of the log, and then
-- everything committed is applied.
pub apply_loop-drains :
    (n now : ℕ) (bytes : Option Bytes) (r : Raft)
    → WellFormed r
    → r.last_applied + n ≡ r.commit_index
    → ((apply_loop n now bytes r).0 ≡ take n (slice_from r (suc r.last_applied)))
      × ((apply_loop n now bytes r).1.last_applied ≡ r.commit_index)
      × ((apply_loop n now bytes r).1.commit_index ≡ r.commit_index)
unfolding apply_loop
apply_loop-drains zero now bytes r v e = (refl, omega arith, refl)
apply_loop-drains (suc n) now bytes r v e =
    let round = one-Round r now bytes v (omega arith) in
    let next = snapshot_if_due now bytes round.after in
    let (sent, applied, committed) =
      apply_loop-drains n now bytes next round.still
        (omega (arith, round.advanced, round.commit_kept)) in
    let rest : slice_from next (suc next.last_applied) ≡ slice_from r (suc (suc r.last_applied)) =
      ap (slice_from next) (ap suc round.advanced) ∙ round.kept in
    (
      rw (round.taken, apply_loop, round.first, sent, rest) refl,
      rw (round.taken, apply_loop) (applied ∙ round.commit_kept),
      rw (round.taken, apply_loop) (committed ∙ round.commit_kept),
    )
