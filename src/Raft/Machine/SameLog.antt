-- ===== src/Raft/Machine/SameLog.antt =====
-- The handlers that leave the log and the commit and apply indices alone: all of the elections and of the
-- membership changes.
use mimori.Prelude.{Bool, List, [], ap, arith, length, put, ℕ, ◌+◌, ◌∷◌, ◌≡◌}
use mimori.Raft.Config.{handle_config_change_if_needed, persist_log}
use mimori.Raft.Election.{
  RequestVoteRequest, RequestVoteResponse, TimeoutNowRequest, TimeoutNowResponse, adopt_term,
  become_leader, campaign, election_tick, handle_vote_response, request_vote, start_election,
  timeout_now, track_peers,
}
use mimori.Raft.Invariant.{WellFormed}
use mimori.Raft.Log.{last_log_index}
use mimori.Raft.Sender.{backtrack, record_success}
use mimori.Raft.Snapshots.{snapshot_sent}
use mimori.Raft.State.{LogEntry, NodeId, Raft, Snapshot, leader}
use mimori.Raft.Transfer.{transfer_answered}

pub record SameLog (r s : Raft) : Type 0 where
  pub log : s.log ≡ r.log
  pub log_base_index : s.log_base_index ≡ r.log_base_index
  pub commit_index : s.commit_index ≡ r.commit_index
  pub last_applied : s.last_applied ≡ r.last_applied

pub SameLog-refl : (r : Raft) → SameLog r r
SameLog-refl r = ground arith

pub SameLog-trans : (r s t : Raft) → SameLog r s → SameLog s t → SameLog r t
SameLog-trans r s t p q = ground arith

pub WellFormed-SameLog : (r s : Raft) → SameLog r s → WellFormed r → WellFormed s
WellFormed-SameLog r s same v = record {
  contiguous = rw (same.log_base_index, same.log) v.contiguous;
  has_dummy = rw same.log v.has_dummy;
  base_applied = omega arith;
  applied_committed = omega arith;
  committed_in_log =
      omega (arith, v.committed_in_log, same.commit_index, same.log_base_index, ap length same.log);
}

pub SameLog-track_peers :
    (ps : List NodeId) (last_idx base : ℕ) (r : Raft) → SameLog r (track_peers ps last_idx base r)
unfolding track_peers
SameLog-track_peers [] last_idx base r = SameLog-refl r
SameLog-track_peers (p ∷ ps) last_idx base r = SameLog-trans r _ _ (ground arith) (
    SameLog-track_peers ps last_idx base (record r {
      next_index = put p last_idx r.next_index;
      match_index = put p base r.match_index;
    }))

pub SameLog-become_leader : (r : Raft) → SameLog r (become_leader r)
unfolding become_leader
SameLog-become_leader r = SameLog-trans r _ _ (ground arith) (
    SameLog-track_peers r.peers (last_log_index r + 1) r.log_base_index
      (record r { state = leader; leader_id = r.id }))

pub SameLog-adopt_term : (term : ℕ) (r : Raft) → SameLog r (adopt_term term r)
unfolding adopt_term
SameLog-adopt_term term r = ground arith

SameLog-campaign : (now : ℕ) (r : Raft) → SameLog r (campaign now r)
unfolding campaign
SameLog-campaign now r = ground arith

pub SameLog-start_election : (now : ℕ) (r : Raft) → SameLog r (start_election now r).0
unfolding start_election
SameLog-start_election now r =
    let started = campaign now r in
    let to_leader =
      SameLog-trans r started (become_leader started) (SameLog-campaign now r)
        (SameLog-become_leader started) in
    ground (arith, SameLog-campaign now r, to_leader)

pub SameLog-election_tick : (timeout now : ℕ) (r : Raft) → SameLog r (election_tick timeout now r).0
unfolding election_tick
SameLog-election_tick timeout now r = ground (arith, SameLog-start_election now r)

pub SameLog-handle_vote_response :
    (resp : RequestVoteResponse) (r : Raft) → SameLog r (handle_vote_response resp r).0
unfolding handle_vote_response
SameLog-handle_vote_response resp r =
    ground (arith, SameLog-become_leader (record r { votes = r.votes + 1 }))

pub SameLog-request_vote :
    (now : ℕ) (req : RequestVoteRequest) (r : Raft) → SameLog r (request_vote now req r).0
unfolding request_vote
SameLog-request_vote now req r = ground arith

pub SameLog-timeout_now :
    (now : ℕ) (req : TimeoutNowRequest) (r : Raft) → SameLog r (timeout_now now req r).0
unfolding timeout_now
SameLog-timeout_now now req r =
    let adopted = adopt_term req.term r in
    let elected =
      SameLog-trans r adopted (start_election now adopted).0 (SameLog-adopt_term req.term r)
        (SameLog-start_election now adopted) in
    ground (arith, elected)

pub SameLog-handle_config_change :
    (now : ℕ) (entry : LogEntry) (r : Raft) → SameLog r (handle_config_change_if_needed now entry r)
unfolding handle_config_change_if_needed
SameLog-handle_config_change now entry r = ground arith

pub SameLog-transfer_answered :
    (target : NodeId) (resp : TimeoutNowResponse) (r : Raft)
    → SameLog r (transfer_answered target resp r)
unfolding transfer_answered
SameLog-transfer_answered target resp r = ground arith

pub SameLog-snapshot_sent :
    (delivered : Bool) (p : NodeId) (snap : Snapshot) (r : Raft)
    → SameLog r (snapshot_sent delivered p snap r)
unfolding snapshot_sent
SameLog-snapshot_sent delivered p snap r = ground arith

pub SameLog-record_success :
    (peer : NodeId) (prev : ℕ) (entries : List LogEntry) (r : Raft)
    → SameLog r (record_success peer prev entries r)
unfolding record_success
SameLog-record_success peer prev entries r = ground arith

pub SameLog-backtrack : (peer : NodeId) (r : Raft) → SameLog r (backtrack peer r).0
unfolding backtrack
SameLog-backtrack peer r = ground arith

pub SameLog-persist_log : (r : Raft) → SameLog r (persist_log r).0
unfolding persist_log
SameLog-persist_log r = ground arith
