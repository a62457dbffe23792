-- ===== src/Raft/Machine/Indices.antt =====
-- The events that move the log or its indices keep a node well formed.
use native.Mathlib.Nat.{le_refl}
use mimori.Prelude.{
  Bool, Bool-cases, List, Option, Option-cases, ap, arith, if◌then◌else◌, inl, inr, length,
  length-append, length-drop, ltb, ltb→lt, none, refl, some, suc, ℕ, ◌+◌, ◌-◌, ◌∙◌, ◌≡◌, ◌≤◌,
}
use mimori.Raft.Applier.{snapshot_if_due}
use mimori.Raft.Commit.{update_commit_index}
use mimori.Raft.Commit.Quorum.{commit_index-le-update, update_commit_index_sound}
use mimori.Raft.Config.{
  append_entry, check_change, config_command, handle_config_change_if_needed, persist_log, propose,
  propose_config_change,
}
use mimori.Raft.Disk.{save_snapshot}
use mimori.Raft.Election.{adopt_term}
use mimori.Raft.Invariant.{WellFormed, last_log_index-eq}
use mimori.Raft.Log.{entries_after, entry_at, last_log_index}
use mimori.Raft.Log.Contiguous.{
  Contiguous, Contiguous-append, entries_after-Contiguous, entries_after-drop,
}
use mimori.Raft.Machine.{apply_taken_by}
use mimori.Raft.Machine.SameLog.{
  SameLog-adopt_term, SameLog-handle_config_change, SameLog-persist_log, WellFormed-SameLog,
}
use mimori.Raft.Snapshots.{
  InstallSnapshotRequest, compact, compacted, create_snapshot, install, install_snapshot,
}
use mimori.Raft.State.{
  Bytes, ConfigChangeType, LogEntry, NodeId, Payload, Raft, Result, Snapshot, err, is_leader_state,
  ok, persist_failed,
}

-- Proposals append at the end.
WellFormed-append_entry :
    (cmd : Payload) (r : Raft) → WellFormed r → WellFormed (append_entry cmd r)
unfolding append_entry
WellFormed-append_entry cmd r v = record {
  contiguous =
      Contiguous-append r.log_base_index r.log _ v.contiguous
        (omega (arith, last_log_index-eq r v), tt);
  has_dummy = omega (arith, length-append r.log _);
  base_applied = v.base_applied;
  applied_committed = v.applied_committed;
  committed_in_log = omega (arith, v.committed_in_log, length-append r.log _);
}

pub WellFormed-propose : (cmd : Payload) (r : Raft) → WellFormed r → WellFormed (propose cmd r).0
unfolding propose
WellFormed-propose cmd r v =
    let r1 = append_entry cmd r in
    let saved =
      WellFormed-SameLog r1 (persist_log r1).0 (SameLog-persist_log r1)
        (WellFormed-append_entry cmd r v) in
    ground (arith, saved)

pub WellFormed-propose_config_change :
    (change : ConfigChangeType) (node : NodeId) (r : Raft)
    → WellFormed r
    → WellFormed (propose_config_change change node r).0
unfolding propose_config_change
WellFormed-propose_config_change change node r v =
    let r1 = append_entry (config_command change node) r in
    let saved =
      WellFormed-SameLog r1 (persist_log r1).0 (SameLog-persist_log r1)
        (WellFormed-append_entry (config_command change node) r v) in
    elim (Bool-cases (is_leader_state r.state)) [
      | inr follows ↦ rw follows v
      | inl leads ↦ rw leads (checked (check_change change node r) saved)
    ]
  where
    r2 : Raft × Bool
    r2 = persist_log (append_entry (config_command change node) r)

    checked :
        (x : Result (Unit {0}))
        → WellFormed r2.0
        → WellFormed
            (elim x as (λ _. Raft × Result ℕ) [
              | ok _ ↦ (r2.0, if r2.1 then ok (last_log_index r + 1) else err persist_failed)
              | err e ↦ (r, err e)
            ]).0
    checked (ok _) saved = saved
    checked (err e) saved = v

-- A snapshot at an index inside the log, or past it, leaves a log without gaps.
compact-Contiguous :
    (snap : Snapshot) (r : Raft)
    → WellFormed r
    → r.log_base_index ≤ snap.last_included_index
    → Contiguous snap.last_included_index
        (compacted snap.last_included_index snap.last_included_term r.log)
unfolding compacted
compact-Contiguous snap r v le = (
  refl,
  entries_after-Contiguous snap.last_included_index r.log_base_index r.log v.contiguous
      (omega arith),
)

length-entries_after :
    (last base : ℕ) (xs : List LogEntry)
    → Contiguous base xs
    → base ≤ suc last
    → length (entries_after last xs) ≡ length xs - (suc last - base)
length-entries_after last base xs h le =
    ap length (entries_after-drop last base xs h le) ∙ length-drop (suc last - base) xs

WellFormed-compact :
    (snap : Snapshot) (r : Raft)
    → WellFormed r
    → r.log_base_index ≤ snap.last_included_index
    → snap.last_included_index ≤ r.last_applied
    → WellFormed (compact snap r)
unfolding compact
WellFormed-compact snap r v le applied = record {
  contiguous = compact-Contiguous snap r v le;
  has_dummy = unfold compacted in omega arith;
  base_applied = applied;
  applied_committed = v.applied_committed;
  committed_in_log =
      unfold compacted in
      omega (
        arith,
        v.committed_in_log,
        length-entries_after snap.last_included_index r.log_base_index r.log v.contiguous,
      );
}

pub WellFormed-create_snapshot :
    (now : ℕ) (bytes : Option Bytes) (r : Raft)
    → WellFormed r
    → WellFormed (create_snapshot now bytes r)
unfolding create_snapshot
WellFormed-create_snapshot now bytes r v = elim (Option-cases (entry_at r r.last_applied)) [
  | inl missing ↦ ground arith
  | inr (entry, found) ↦ create_some entry found bytes
]
  where
    snap_of : LogEntry → Bytes → Snapshot
    snap_of entry b = record {
      last_included_index = r.last_applied;
      last_included_term = entry.term;
      created_at = now;
      bytes = b;
    }

    create_some :
        (entry : LogEntry)
        → entry_at r r.last_applied ≡ some entry
        → (bytes : Option Bytes) → WellFormed (create_snapshot now bytes r)
    create_some entry found none = ground arith
    create_some entry found (some b) =
        let saved = record r { disk = (save_snapshot r.disk (snap_of entry b)).0 } in
        let there =
          WellFormed-compact (snap_of entry b) saved (WellFormed-SameLog r saved (ground arith) v)
            v.base_applied (le_refl r.last_applied) in
        ground (arith, there)

pub WellFormed-snapshot_if_due :
    (now : ℕ) (bytes : Option Bytes) (r : Raft)
    → WellFormed r
    → WellFormed (snapshot_if_due now bytes r)
unfolding snapshot_if_due
WellFormed-snapshot_if_due now bytes r v = ground (arith, WellFormed-create_snapshot now bytes r v)

WellFormed-install :
    (now : ℕ) (req : InstallSnapshotRequest) (r : Raft)
    → r.log_base_index ≤ req.last_included_index
    → WellFormed r
    → WellFormed (install now req r)
unfolding install
WellFormed-install now req r le v =
    let snap : Snapshot = record {
      last_included_index = req.last_included_index;
      last_included_term = req.last_included_term;
      created_at = now;
      bytes = req.bytes;
    } in
    record {
      contiguous = compact-Contiguous snap r v le;
      has_dummy = unfold compacted in omega arith;
      base_applied = le_refl req.last_included_index;
      applied_committed = le_refl req.last_included_index;
      committed_in_log = unfold compacted in omega arith;
    }

pub WellFormed-install_snapshot :
    (now : ℕ) (req : InstallSnapshotRequest) (r : Raft)
    → r.log_base_index ≤ req.last_included_index
    → WellFormed r
    → WellFormed (install_snapshot now req r).0
unfolding install_snapshot
WellFormed-install_snapshot now req r le v =
    let r1 = adopt_term req.term r in
    let same = SameLog-adopt_term req.term r in
    let installed =
      WellFormed-install now req r1 (omega (arith, same.log_base_index))
        (WellFormed-SameLog r r1 same v) in
    ground (arith, installed)

pub WellFormed-update_commit_index : (r : Raft) → WellFormed r → WellFormed (update_commit_index r)
unfolding update_commit_index
WellFormed-update_commit_index r v =
    ground (arith, commit_index-le-update r, update_commit_index_sound r, last_log_index-eq r v)

pub WellFormed-apply_taken : (now : ℕ) (r : Raft) → WellFormed r → WellFormed (apply_taken_by now r)
unfolding apply_taken_by
WellFormed-apply_taken now r v = elim (Bool-cases (ltb r.last_applied r.commit_index)) [
  | inr done ↦ ground arith
  | inl due ↦ elim (Option-cases (entry_at r (r.last_applied + 1))) [
    | inl missing ↦ ground arith
    | inr (entry, found) ↦
        let marked = record r { last_applied = r.last_applied + 1 } in
        let marked_v : WellFormed marked = record {
          contiguous = v.contiguous;
          has_dummy = v.has_dummy;
          base_applied = omega (arith, v.base_applied);
          applied_committed = omega (arith, ltb→lt _ _ due);
          committed_in_log = v.committed_in_log;
        } in
        let there =
          WellFormed-SameLog marked (handle_config_change_if_needed now entry marked)
            (SameLog-handle_config_change now entry marked) marked_v in
        ground (arith, there)
  ]
]
