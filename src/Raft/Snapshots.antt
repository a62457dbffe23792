-- ===== src/Raft/Snapshots.antt =====
-- Snapshots: `createSnapshotLocked` of internal/raft/raft.go, `InstallSnapshot` of
-- internal/raft/rpc.go and `sendSnapshotToFollower` of internal/raft/rpc_client.go.
pub mod Compaction
use mimori.Prelude.{Bool, List, Option, if◌then◌else◌, int32, ltb, none, put, some, ℕ, ◌+◌, ◌∷◌}
use mimori.Raft.Config.{persist_log}
use mimori.Raft.Disk.{load_snapshot, save_snapshot}
use mimori.Raft.Election.{adopt_term}
use mimori.Raft.Log.{entries_after, entry_at}
use mimori.Raft.State.{Bytes, LogEntry, NodeId, Raft, Snapshot}

pub record InstallSnapshotRequest : Type 0 where
  pub term : ℕ
  pub last_included_index : ℕ
  pub last_included_term : ℕ
  pub bytes : Bytes

-- The log that starts at a snapshot: a dummy entry, then the entries past it.
unfoldable pub compacted : (index term : ℕ) → List LogEntry → List LogEntry
unfolding entries_after
compacted index term log =
    record { index = index; term = term; payload = none } ∷ entries_after index log

-- The end of `createSnapshotLocked`, once the snapshot is on disk.
unfoldable pub compact : Snapshot → Raft → Raft
unfolding compacted persist_log
compact snap r =
    let (r', saved) = persist_log (record r {
      snapshot = some snap;
      log = compacted snap.last_included_index snap.last_included_term r.log;
      log_base_index = snap.last_included_index;
    }) in
    r'

-- `createSnapshotLocked`.  `state_bytes` is what the registered snapshotter returns now, `none` for an
-- error; a snapshot that cannot be saved changes nothing.
unfoldable pub create_snapshot : (now : ℕ) (state_bytes : Option Bytes) → Raft → Raft
unfolding entry_at save_snapshot compact
create_snapshot now state_bytes r =
    if r.snapshotter
    then (elim (entry_at r r.last_applied) [
      | none ↦ r
      | some entry ↦ (elim state_bytes [
        | none ↦ r
        | some bytes ↦
            let snap : Snapshot = record {
              last_included_index = r.last_applied;
              last_included_term = entry.term;
              created_at = now;
              bytes = bytes;
            } in
            let (disk', saved) = save_snapshot r.disk snap in
            if saved then compact snap (record r { disk = disk' }) else r
      ])
    ])
    else r

-- Step 3 of `InstallSnapshot`: errors of the two saves are only logged.
unfoldable pub install : (now : ℕ) → InstallSnapshotRequest → Raft → Raft
unfolding save_snapshot compact
install now req r =
    let snap : Snapshot = record {
      last_included_index = req.last_included_index;
      last_included_term = req.last_included_term;
      created_at = now;
      bytes = req.bytes;
    } in
    let r1 = compact snap (record r { disk = (save_snapshot r.disk snap).0 }) in
    record r1 { commit_index = req.last_included_index; last_applied = req.last_included_index }

-- `InstallSnapshot`: the term of the response, and the bytes handed to the restorer, if one is
-- registered and the request is taken.
unfoldable pub install_snapshot :
    (now : ℕ) → InstallSnapshotRequest → Raft → Raft × ℕ × Option Bytes
unfolding adopt_term install int32
install_snapshot now req r = if ltb req.term r.term then (r, int32 r.term, none) else (
  install now req (adopt_term req.term r),
  int32 r.term,
  if r.restorer then some req.bytes else none,
)

-- `sendSnapshotToFollower`: the snapshot that is sent, if there is one.
unfoldable pub snapshot_to_send : Raft → Option Snapshot
unfolding load_snapshot
snapshot_to_send r = elim r.snapshot [ none ↦ load_snapshot r.disk | some snap ↦ some snap ]

-- The request of `sendSnapshotToFollower`.
unfoldable pub snapshot_request : Snapshot → Raft → InstallSnapshotRequest
unfolding int32
snapshot_request snap r = record {
  term = int32 r.term;
  last_included_index = int32 snap.last_included_index;
  last_included_term = int32 snap.last_included_term;
  bytes = snap.bytes;
}

-- The end of `sendSnapshotToFollower`, after the call has returned.  `delivered` is false where the call
-- failed: the code does not look at it.
unfoldable pub snapshot_sent : (delivered : Bool) → NodeId → Snapshot → Raft → Raft
unfolding put
snapshot_sent delivered p snap r = record r {
  match_index = put p snap.last_included_index r.match_index;
  next_index = put p (snap.last_included_index + 1) r.next_index;
}
