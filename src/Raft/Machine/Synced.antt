-- ===== src/Raft/Machine/Synced.antt =====
-- Every regular event keeps the files in step with memory, as long as writes go through.
use mimori.Prelude.{
  List, Option, Option-cases, [], arith, get_elem?, get_elem?-append_left, inl, inr, none, refl,
  some, true, ℕ, ◌∙◌, ◌∷◌, ◌≡◌,
}
use mimori.Raft.Applier.{snapshot_if_due}
use mimori.Raft.Config.{append_entry, config_command, persist_log, propose, propose_config_change}
use mimori.Raft.Disk.{load_log, save_all, save_snapshot}
use mimori.Raft.Election.{adopt_term}
use mimori.Raft.Init.{boot_entries}
use mimori.Raft.Invariant.{get_elem?-lt_length}
use mimori.Raft.Log.{entry_at}
use mimori.Raft.Machine.Files.{Anchors, InSync, InSync-SameFiles, SameFiles-adopt_term, saved_log}
use mimori.Raft.Snapshots.{
  InstallSnapshotRequest, compact, compacted, create_snapshot, install, install_snapshot,
}
use mimori.Raft.State.{Bytes, ConfigChangeType, Disk, LogEntry, NodeId, Payload, Raft, Snapshot}
use mimori.Tests.Nodes.{entry}

saved_log-some :
    (d : Disk) (log : List LogEntry) (e : LogEntry)
    → d.log ≡ some log
    → get_elem? log 0 ≡ some e
    → saved_log d ≡ log
unfolding boot_entries load_log
saved_log-some d [] e saved at = cc
saved_log-some d (x ∷ xs) e saved at = rw (saved, load_log, boot_entries) refl

-- What is kept when the log is saved under the same anchor.
pub InSync-persist_log :
    (r : Raft)
    → r.disk.log_writable ≡ true
    → r.disk.snapshot_writable ≡ true
    → r.disk.snapshot ≡ r.snapshot
    → (e : LogEntry) → get_elem? r.log 0 ≡ some e
    → Anchors r.snapshot r.log_base_index e
    → InSync (persist_log r).0
unfolding persist_log save_all
InSync-persist_log r lw sw snap e at anchored =
    rw (lw, save_all, persist_log)
      (record {
        log_writable = refl;
        snapshot_writable = sw;
        log_saved = saved_log-some _ r.log e refl at;
        snapshot_saved = snap;
        first = e;
        first_is = at;
        anchored = anchored;
      })

InSync-compact :
    (snap : Snapshot) (r : Raft)
    → r.disk.log_writable ≡ true
    → r.disk.snapshot_writable ≡ true
    → r.disk.snapshot ≡ some snap
    → InSync (compact snap r)
unfolding compact compacted
InSync-compact snap r lw sw saved =
    InSync-persist_log
      (record r {
        snapshot = some snap;
        log = compacted snap.last_included_index snap.last_included_term r.log;
        log_base_index = snap.last_included_index;
      })
      lw sw saved
      (record { index = snap.last_included_index; term = snap.last_included_term; payload = none })
      refl (refl, refl, refl)

-- A snapshot is saved under the node's own files, and the log after it.
InSync-snapshot_saved :
    (snap : Snapshot) (r : Raft)
    → InSync r
    → InSync (compact snap (record r { disk = (save_snapshot r.disk snap).0 }))
unfolding save_snapshot
InSync-snapshot_saved snap r v =
    let saved = record r { disk = (save_snapshot r.disk snap).0 } in
    InSync-compact snap saved (ground (arith, v.log_writable, v.snapshot_writable))
      (ground (arith, v.log_writable, v.snapshot_writable))
      (ground (arith, v.log_writable, v.snapshot_writable))

pub InSync-create_snapshot :
    (now : ℕ) (bytes : Option Bytes) (r : Raft) → InSync r → InSync (create_snapshot now bytes r)
unfolding create_snapshot
InSync-create_snapshot now bytes r v = elim (Option-cases (entry_at r r.last_applied)) [
  | inl missing ↦ ground arith
  | inr (entry, found) ↦ create_some entry found bytes
]
  where
    create_some :
        (entry : LogEntry)
        → entry_at r r.last_applied ≡ some entry
        → (bytes : Option Bytes) → InSync (create_snapshot now bytes r)
    create_some entry found none = ground arith
    create_some entry found (some b) =
        let snap : Snapshot = record {
          last_included_index = r.last_applied;
          last_included_term = entry.term;
          created_at = now;
          bytes = b;
        } in
        ground (arith, InSync-snapshot_saved snap r v)

pub InSync-snapshot_if_due :
    (now : ℕ) (bytes : Option Bytes) (r : Raft) → InSync r → InSync (snapshot_if_due now bytes r)
unfolding snapshot_if_due
InSync-snapshot_if_due now bytes r v = ground (arith, v, InSync-create_snapshot now bytes r v)

InSync-install :
    (now : ℕ) (req : InstallSnapshotRequest) (r : Raft) → InSync r → InSync (install now req r)
unfolding install
InSync-install now req r v =
    let snap : Snapshot = record {
      last_included_index = req.last_included_index;
      last_included_term = req.last_included_term;
      created_at = now;
      bytes = req.bytes;
    } in
    let s = compact snap (record r { disk = (save_snapshot r.disk snap).0 }) in
    InSync-SameFiles s
      (record s { commit_index = req.last_included_index; last_applied = req.last_included_index })
      (record {
        log = refl;
        log_base_index = refl;
        snapshot = refl;
        log_file = refl;
        snapshot_file = refl;
        log_writable = refl;
        snapshot_writable = refl;
      })
      (InSync-snapshot_saved snap r v)

pub InSync-install_snapshot :
    (now : ℕ) (req : InstallSnapshotRequest) (r : Raft)
    → InSync r
    → InSync (install_snapshot now req r).0
unfolding install_snapshot
InSync-install_snapshot now req r v =
    let r1 = adopt_term req.term r in
    let v1 = InSync-SameFiles r r1 (SameFiles-adopt_term req.term r) v in
    ground (arith, v, InSync-install now req r1 v1)

InSync-append_entry :
    (cmd : Payload) (r : Raft) → InSync r → InSync (persist_log (append_entry cmd r)).0
unfolding append_entry
InSync-append_entry cmd r v =
    let r1 = append_entry cmd r in
    InSync-persist_log r1 v.log_writable v.snapshot_writable v.snapshot_saved v.first
      (get_elem?-append_left r.log _ 0 (get_elem?-lt_length r.log 0 v.first v.first_is)
        ∙ v.first_is)
      v.anchored

pub InSync-propose : (cmd : Payload) (r : Raft) → InSync r → InSync (propose cmd r).0
unfolding propose
InSync-propose cmd r v = ground (arith, v, InSync-append_entry cmd r v)

pub InSync-propose_config_change :
    (change : ConfigChangeType) (node : NodeId) (r : Raft)
    → InSync r
    → InSync (propose_config_change change node r).0
unfolding propose_config_change
InSync-propose_config_change change node r v =
    ground (arith, v, InSync-append_entry (config_command change node) r v)
