-- ===== src/Raft/Machine/Ballot.antt =====
-- The parts of the handlers that leave the term, the vote and the saved vote alone.
use mimori.Prelude.{Bool, List, Option, [], arith, put, ℕ, ◌+◌, ◌∷◌, ◌≡◌}
use mimori.Raft.Applier.{snapshot_if_due}
use mimori.Raft.Commit.{update_commit_index}
use mimori.Raft.Config.{append_entry, check_change, persist_log, propose, propose_config_change}
use mimori.Raft.Election.{become_leader, track_peers}
use mimori.Raft.Init.{start_from_snapshot}
use mimori.Raft.Log.{last_log_index}
use mimori.Raft.Replication.{accept_entries}
use mimori.Raft.Sender.{backtrack, record_success, send_heartbeats}
use mimori.Raft.Snapshots.{InstallSnapshotRequest, compact, create_snapshot, install, snapshot_sent}
use mimori.Raft.State.{
  Bytes, ConfigChangeType, LogEntry, NodeId, Payload, Raft, Snapshot, config_add_node,
  config_remove_node, leader,
}

-- `s` has the ballot of `r`, in memory and on disk.
pub record SameBallot (r s : Raft) : Type 0 where
  pub term : s.term ≡ r.term
  pub voted_for : s.voted_for ≡ r.voted_for
  pub saved : s.disk.meta ≡ r.disk.meta
  pub writable : s.disk.meta_writable ≡ r.disk.meta_writable
  pub removed : s.removed_from_cluster ≡ r.removed_from_cluster

pub SameBallot-refl : (r : Raft) → SameBallot r r
SameBallot-refl r = ground arith

pub SameBallot-trans : (r s t : Raft) → SameBallot r s → SameBallot s t → SameBallot r t
SameBallot-trans r s t p q = ground arith

pub SameBallot-track_peers :
    (ps : List NodeId) (last_idx base : ℕ) (r : Raft)
    → SameBallot r (track_peers ps last_idx base r)
unfolding track_peers
SameBallot-track_peers [] last_idx base r = SameBallot-refl r
SameBallot-track_peers (p ∷ ps) last_idx base r = SameBallot-trans r _ _ (ground arith) (
    SameBallot-track_peers ps last_idx base (record r {
      next_index = put p last_idx r.next_index;
      match_index = put p base r.match_index;
    }))

pub SameBallot-become_leader : (r : Raft) → SameBallot r (become_leader r)
unfolding become_leader
SameBallot-become_leader r = SameBallot-trans r _ _ (ground arith) (
    SameBallot-track_peers r.peers (last_log_index r + 1) r.log_base_index
      (record r { state = leader; leader_id = r.id }))

pub SameBallot-update_commit_index : (r : Raft) → SameBallot r (update_commit_index r)
unfolding update_commit_index
SameBallot-update_commit_index r = ground arith

pub SameBallot-persist_log : (r : Raft) → SameBallot r (persist_log r).0
unfolding persist_log
SameBallot-persist_log r = ground arith

pub SameBallot-accept_entries :
    (entries : List LogEntry) (leader_commit : ℕ) (r : Raft)
    → SameBallot r (accept_entries entries leader_commit r)
unfolding accept_entries
SameBallot-accept_entries entries leader_commit r = ground arith

pub SameBallot-compact : (snap : Snapshot) (r : Raft) → SameBallot r (compact snap r)
unfolding compact
SameBallot-compact snap r = ground arith

pub SameBallot-create_snapshot :
    (now : ℕ) (bytes : Option Bytes) (r : Raft) → SameBallot r (create_snapshot now bytes r)
unfolding create_snapshot
SameBallot-create_snapshot now bytes r = ground arith

pub SameBallot-install :
    (now : ℕ) (req : InstallSnapshotRequest) (r : Raft) → SameBallot r (install now req r)
unfolding install
SameBallot-install now req r = ground arith

pub SameBallot-propose : (cmd : Payload) (r : Raft) → SameBallot r (propose cmd r).0
unfolding propose
SameBallot-propose cmd r = ground arith

pub SameBallot-propose_config_change :
    (change : ConfigChangeType) (node : NodeId) (r : Raft)
    → SameBallot r (propose_config_change change node r).0
unfolding propose_config_change persist_log append_entry check_change
SameBallot-propose_config_change config_add_node node r = ground arith
SameBallot-propose_config_change config_remove_node node r = ground arith

pub SameBallot-record_success :
    (peer : NodeId) (prev : ℕ) (entries : List LogEntry) (r : Raft)
    → SameBallot r (record_success peer prev entries r)
unfolding record_success
SameBallot-record_success peer prev entries r = ground arith

pub SameBallot-backtrack : (peer : NodeId) (r : Raft) → SameBallot r (backtrack peer r).0
unfolding backtrack
SameBallot-backtrack peer r = ground arith

pub SameBallot-start_from_snapshot : (r : Raft) → SameBallot r (start_from_snapshot r)
unfolding start_from_snapshot
SameBallot-start_from_snapshot r = ground arith

pub SameBallot-snapshot_if_due :
    (now : ℕ) (bytes : Option Bytes) (r : Raft) → SameBallot r (snapshot_if_due now bytes r)
unfolding snapshot_if_due
SameBallot-snapshot_if_due now bytes r = ground (arith, SameBallot-create_snapshot now bytes r)

pub SameBallot-send_heartbeats : (r : Raft) → SameBallot r (send_heartbeats r).0
unfolding send_heartbeats
SameBallot-send_heartbeats r = ground (arith, SameBallot-update_commit_index r)

pub SameBallot-snapshot_sent :
    (delivered : Bool) (p : NodeId) (snap : Snapshot) (r : Raft)
    → SameBallot r (snapshot_sent delivered p snap r)
unfolding snapshot_sent
SameBallot-snapshot_sent delivered p snap r = ground arith
