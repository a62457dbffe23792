-- ===== src/Raft/Machine/Leads.antt =====
-- How a node comes to be a leader.
use mimori.Prelude.{List, Option, [], arith, length, put, refl, ℕ, ◌+◌, ◌/◌, ◌∷◌, ◌≡◌, ◌≤◌, ◌⊎◌}
use mimori.Raft.Applier.{snapshot_if_due, take_next}
use mimori.Raft.Commit.{update_commit_index}
use mimori.Raft.Config.{
  add_peer, append_entry, apply_config_change, handle_config_change_if_needed, majority,
  persist_log, persist_meta, propose, propose_config_change, remove_peer, remove_self,
}
use mimori.Raft.Election.{
  RequestVoteRequest, RequestVoteResponse, TimeoutNowRequest, adopt_term, become_leader, campaign,
  election_tick, grant_vote, handle_vote_response, request_vote, start_election, timeout_now,
  track_peers,
}
use mimori.Raft.Log.{last_log_index}
use mimori.Raft.Machine.{
  Event, append_answered, apply_finished, apply_taken, apply_taken_by, change_proposed,
  command_proposed, entries_requested, heartbeats_sent, restarted, snapshot_forced,
  snapshot_requested, snapshot_returned, step, timeout_requested, timer_ticked, transfer_returned,
  vote_answered, vote_requested,
}
use mimori.Raft.Machine.Passive.{IsLive}
use mimori.Raft.Replication.{
  AppendEntriesRequest, AppendEntriesResponse, accept_entries, advance_commit, append_entries,
}
use mimori.Raft.Sender.{
  backtrack, handle_append_response, record_success, send_heartbeats, set_progress,
}
use mimori.Raft.Snapshots.{
  InstallSnapshotRequest, compact, create_snapshot, install, install_snapshot, snapshot_sent,
}
use mimori.Raft.State.{Bytes, ConfigChangeType, LogEntry, NodeId, Raft, leader}
use mimori.Raft.Transfer.{transfer_answered}

votes-track_peers :
    (ps : List NodeId) (last_idx base : ℕ) (r : Raft)
    → ((track_peers ps last_idx base r).votes ≡ r.votes)
      × ((track_peers ps last_idx base r).peers ≡ r.peers)
unfolding track_peers
votes-track_peers [] last_idx base r = (refl, refl)
votes-track_peers (p ∷ ps) last_idx base r =
    votes-track_peers ps last_idx base (record r {
      next_index = put p last_idx r.next_index;
      match_index = put p base r.match_index;
    })

votes-become_leader :
    (r : Raft) → ((become_leader r).votes ≡ r.votes) × ((become_leader r).peers ≡ r.peers)
unfolding become_leader
votes-become_leader r =
    votes-track_peers r.peers (last_log_index r + 1) r.log_base_index
      (record r { state = leader; leader_id = r.id })

-- The votes that the node counts are a majority of the members that it knows.
abbrev pub HasMajority : Raft → Type 0
HasMajority r = (length r.peers + 1) / 2 + 1 ≤ r.votes

-- `s` leads only if `r` did, or with a majority.
abbrev pub LeadsOnlyWith : (r s : Raft) → Type 0
LeadsOnlyWith r s = s.state ≡ leader → (r.state ≡ leader) ⊎ HasMajority s

LeadsOnlyWith-start_election : (now : ℕ) (r : Raft) → LeadsOnlyWith r (start_election now r).0
unfolding start_election majority
LeadsOnlyWith-start_election now r h =
    let facts = votes-become_leader (campaign now r) in ground (arith, facts)

LeadsOnlyWith-handle_vote_response :
    (resp : RequestVoteResponse) (r : Raft) → LeadsOnlyWith r (handle_vote_response resp r).0
unfolding handle_vote_response majority
LeadsOnlyWith-handle_vote_response resp r h =
    let facts = votes-become_leader (record r { votes = r.votes + 1 }) in ground (arith, facts)

LeadsOnlyWith-election_tick :
    (timeout now : ℕ) (r : Raft) → LeadsOnlyWith r (election_tick timeout now r).0
unfolding election_tick
LeadsOnlyWith-election_tick timeout now r h =
    let elected = LeadsOnlyWith-start_election now r in ground (arith, elected)

LeadsOnlyWith-timeout_now :
    (now : ℕ) (req : TimeoutNowRequest) (r : Raft) → LeadsOnlyWith r (timeout_now now req r).0
unfolding timeout_now adopt_term persist_meta
LeadsOnlyWith-timeout_now now req r h =
    let elected = LeadsOnlyWith-start_election now (adopt_term req.term r) in
    ground (arith, elected)

LeadsOnlyWith-append_entries :
    (now : ℕ) (req : AppendEntriesRequest) (r : Raft) → LeadsOnlyWith r (append_entries now req r).0
unfolding append_entries adopt_term accept_entries advance_commit persist_log persist_meta
LeadsOnlyWith-append_entries now req r h = ground arith

LeadsOnlyWith-install_snapshot :
    (now : ℕ) (req : InstallSnapshotRequest) (r : Raft)
    → LeadsOnlyWith r (install_snapshot now req r).0
unfolding install_snapshot adopt_term install compact persist_log persist_meta
LeadsOnlyWith-install_snapshot now req r h = ground arith

LeadsOnlyWith-request_vote :
    (now : ℕ) (req : RequestVoteRequest) (r : Raft) → LeadsOnlyWith r (request_vote now req r).0
unfolding request_vote adopt_term grant_vote persist_meta
LeadsOnlyWith-request_vote now req r h = ground arith

LeadsOnlyWith-apply_taken : (now : ℕ) (r : Raft) → LeadsOnlyWith r (apply_taken_by now r)
unfolding apply_taken_by take_next handle_config_change_if_needed apply_config_change remove_self
    add_peer remove_peer persist_meta
LeadsOnlyWith-apply_taken now r h = ground arith

LeadsOnlyWith-create_snapshot :
    (now : ℕ) (bytes : Option Bytes) (r : Raft) → LeadsOnlyWith r (create_snapshot now bytes r)
unfolding create_snapshot compact persist_log
LeadsOnlyWith-create_snapshot now bytes r h = ground arith

LeadsOnlyWith-handle_append_response :
    (peer : NodeId) (prev : ℕ) (entries : List LogEntry) (resp : AppendEntriesResponse) (r : Raft)
    → LeadsOnlyWith r (handle_append_response peer prev entries resp r).0
unfolding handle_append_response record_success set_progress backtrack update_commit_index
    persist_meta
LeadsOnlyWith-handle_append_response peer prev entries resp r h = ground arith

LeadsOnlyWith-propose_config_change :
    (change : ConfigChangeType) (node : NodeId) (r : Raft)
    → LeadsOnlyWith r (propose_config_change change node r).0
unfolding propose_config_change append_entry persist_log
LeadsOnlyWith-propose_config_change change node r h = ground arith

step-LeadsOnlyWith : (e : Event) (r : Raft) → IsLive e → LeadsOnlyWith r (step e r)
unfolding step
step-LeadsOnlyWith (timer_ticked timeout now) r live = LeadsOnlyWith-election_tick timeout now r
step-LeadsOnlyWith (vote_answered resp) r live = LeadsOnlyWith-handle_vote_response resp r
step-LeadsOnlyWith (vote_requested now req) r live = LeadsOnlyWith-request_vote now req r
step-LeadsOnlyWith (entries_requested now req) r live = LeadsOnlyWith-append_entries now req r
step-LeadsOnlyWith (snapshot_requested now req) r live = LeadsOnlyWith-install_snapshot now req r
step-LeadsOnlyWith (timeout_requested now req) r live = LeadsOnlyWith-timeout_now now req r
step-LeadsOnlyWith (command_proposed cmd) r live =
    unfold propose append_entry persist_log in λ h. ground arith
step-LeadsOnlyWith (change_proposed change node) r live =
    LeadsOnlyWith-propose_config_change change node r
step-LeadsOnlyWith (apply_taken now) r live = LeadsOnlyWith-apply_taken now r
step-LeadsOnlyWith (apply_finished now bytes) r live =
    let made = LeadsOnlyWith-create_snapshot now bytes r in
    unfold snapshot_if_due in λ h. ground (arith, made)
step-LeadsOnlyWith (snapshot_forced now bytes) r live = LeadsOnlyWith-create_snapshot now bytes r
step-LeadsOnlyWith heartbeats_sent r live =
    unfold send_heartbeats update_commit_index in λ h. ground arith
step-LeadsOnlyWith (append_answered peer prev entries resp) r live =
    LeadsOnlyWith-handle_append_response peer prev entries resp r
step-LeadsOnlyWith (snapshot_returned delivered p snap) r live =
    unfold snapshot_sent in λ h. ground arith
step-LeadsOnlyWith (transfer_returned target resp) r live =
    unfold transfer_answered persist_meta in λ h. ground arith
step-LeadsOnlyWith (restarted now peers) r no' = absurd no'

-- Whatever happens to a node other than a restart, when it leads afterwards it did so before, or the votes
-- that it counts are a majority of the members that it knows.
pub step-HasMajority :
    (e : Event) (r : Raft)
    → IsLive e
    → (step e r).state ≡ leader
    → (r.state ≡ leader) ⊎ HasMajority (step e r)
step-HasMajority e r live leads = step-LeadsOnlyWith e r live leads
