-- ===== src/Raft/Machine/Passive.antt =====
-- A node that an applied entry removed from the cluster.
use mimori.Prelude.{List, Option, arith, true, ℕ, ◌≡◌}
use mimori.Raft.Applier.{snapshot_if_due, take_next}
use mimori.Raft.Commit.{update_commit_index}
use mimori.Raft.Config.{
  add_peer, apply_config_change, handle_config_change_if_needed, persist_log, persist_meta, propose,
  propose_config_change, remove_peer, remove_self,
}
use mimori.Raft.Election.{
  RequestVoteRequest, TimeoutNowRequest, adopt_term, election_tick, grant_vote,
  handle_vote_response, request_vote, start_election, timeout_now,
}
use mimori.Raft.Machine.{
  Event, append_answered, apply_finished, apply_taken, apply_taken_by, change_proposed,
  command_proposed, entries_requested, heartbeats_sent, restarted, snapshot_forced,
  snapshot_requested, snapshot_returned, step, timeout_requested, timer_ticked, transfer_returned,
  vote_answered, vote_requested,
}
use mimori.Raft.Replication.{
  AppendEntriesRequest, AppendEntriesResponse, accept_entries, advance_commit, append_entries,
}
use mimori.Raft.Sender.{
  backtrack, handle_append_response, record_success, send_heartbeats, set_progress,
}
use mimori.Raft.Snapshots.{
  InstallSnapshotRequest, compact, create_snapshot, install, install_snapshot, snapshot_sent,
}
use mimori.Raft.State.{Bytes, ConfigChangeType, LogEntry, NodeId, Raft, follower}
use mimori.Raft.Transfer.{transfer_answered}

-- Removed, and neither a candidate nor a leader.
pub record IsPassive (r : Raft) : Type 0 where
  pub is_removed : r.removed_from_cluster ≡ true
  pub follows : r.state ≡ follower

IsPassive-append_entries :
    (now : ℕ) (req : AppendEntriesRequest) (r : Raft)
    → IsPassive r
    → IsPassive (append_entries now req r).0
unfolding append_entries adopt_term accept_entries advance_commit persist_log persist_meta
IsPassive-append_entries now req r v = ground arith

IsPassive-install_snapshot :
    (now : ℕ) (req : InstallSnapshotRequest) (r : Raft)
    → IsPassive r
    → IsPassive (install_snapshot now req r).0
unfolding install_snapshot adopt_term install compact persist_log persist_meta
IsPassive-install_snapshot now req r v = ground arith

IsPassive-request_vote :
    (now : ℕ) (req : RequestVoteRequest) (r : Raft)
    → IsPassive r
    → IsPassive (request_vote now req r).0
unfolding request_vote adopt_term grant_vote persist_meta
IsPassive-request_vote now req r v = ground arith

IsPassive-timeout_now :
    (now : ℕ) (req : TimeoutNowRequest) (r : Raft)
    → IsPassive r
    → IsPassive (timeout_now now req r).0
unfolding timeout_now adopt_term start_election persist_meta
IsPassive-timeout_now now req r v = ground arith

IsPassive-apply_taken : (now : ℕ) (r : Raft) → IsPassive r → IsPassive (apply_taken_by now r)
unfolding apply_taken_by take_next handle_config_change_if_needed apply_config_change remove_self
    add_peer remove_peer persist_meta
IsPassive-apply_taken now r v = ground arith

IsPassive-create_snapshot :
    (now : ℕ) (bytes : Option Bytes) (r : Raft)
    → IsPassive r
    → IsPassive (create_snapshot now bytes r)
unfolding create_snapshot compact persist_log
IsPassive-create_snapshot now bytes r v = ground arith

IsPassive-handle_append_response :
    (peer : NodeId) (prev : ℕ) (entries : List LogEntry) (resp : AppendEntriesResponse) (r : Raft)
    → IsPassive r
    → IsPassive (handle_append_response peer prev entries resp r).0
unfolding handle_append_response record_success set_progress backtrack update_commit_index
    persist_meta
IsPassive-handle_append_response peer prev entries resp r v = ground arith

IsPassive-propose_config_change :
    (change : ConfigChangeType) (node : NodeId) (r : Raft)
    → IsPassive r
    → (propose_config_change change node r).0 ≡ r
unfolding propose_config_change
IsPassive-propose_config_change change node r v = ground arith

IsPassive-tick : (timeout now : ℕ) (r : Raft) → IsPassive r → (election_tick timeout now r).0 ≡ r
unfolding election_tick
IsPassive-tick timeout now r v = ground arith

-- Every event but the restart.
abbrev pub IsLive : Event → Type 0
IsLive (restarted now peers) = ⊥
IsLive e = Unit {0}

-- A removed follower stays a removed follower through every event but the restart: no timer, vote, request
-- or answer makes it a candidate or a leader.
pub step-IsPassive : (e : Event) (r : Raft) → IsLive e → IsPassive r → IsPassive (step e r)
unfolding step
step-IsPassive (timer_ticked timeout now) r live v = rw (IsPassive-tick timeout now r v) v
step-IsPassive (vote_answered resp) r live v = unfold handle_vote_response in ground arith
step-IsPassive (vote_requested now req) r live v = IsPassive-request_vote now req r v
step-IsPassive (entries_requested now req) r live v = IsPassive-append_entries now req r v
step-IsPassive (snapshot_requested now req) r live v = IsPassive-install_snapshot now req r v
step-IsPassive (timeout_requested now req) r live v = IsPassive-timeout_now now req r v
step-IsPassive (command_proposed cmd) r live v = unfold propose in ground arith
step-IsPassive (change_proposed change node) r live v =
    rw (IsPassive-propose_config_change change node r v) v
step-IsPassive (apply_taken now) r live v = IsPassive-apply_taken now r v
step-IsPassive (apply_finished now bytes) r live v =
    unfold snapshot_if_due in ground (arith, IsPassive-create_snapshot now bytes r v)
step-IsPassive (snapshot_forced now bytes) r live v = IsPassive-create_snapshot now bytes r v
step-IsPassive heartbeats_sent r live v = unfold send_heartbeats update_commit_index in ground arith
step-IsPassive (append_answered peer prev entries resp) r live v =
    IsPassive-handle_append_response peer prev entries resp r v
step-IsPassive (snapshot_returned delivered p snap) r live v = unfold snapshot_sent in ground arith
step-IsPassive (transfer_returned target resp) r live v =
    unfold transfer_answered persist_meta in ground arith
step-IsPassive (restarted now peers) r no' v = absurd no'
