-- ===== src/Raft/Query.antt =====
-- The query helpers of internal/raft/raft.go.  Times are milliseconds.
use mimori.Prelude.{
  Bool, String, false, if◌then◌else◌, length, ltb, not, str_eq, true, ℕ, ◌&&◌, ◌-◌,
}
use mimori.Raft.State.{
  NodeId, Raft, RaftState, candidate, follower, is_follower_state, is_leader_state, leader,
}

unfoldable pub is_leader : Raft → Bool
is_leader r = is_leader_state r.state && not r.removed_from_cluster

abbrev pub max_lease_age : ℕ
max_lease_age = 4000

-- `HasReadLease`
unfoldable pub has_read_lease : (now : ℕ) → Raft → Bool
has_read_lease now r =
    if r.removed_from_cluster
    then false
    else (if is_leader_state r.state
        then true
        else (if is_follower_state r.state && not (str_eq r.leader_id "")
            then ltb (now - r.election_reset) max_lease_age
            else false))

-- `RaftState.String`
unfoldable pub state_name : RaftState → String
state_name follower = "follower"
state_name candidate = "candidate"
state_name leader = "leader"

pub record Status : Type 0 where
  pub id : NodeId
  pub state : String
  pub term : ℕ
  pub leader_id : NodeId
  pub commit_index : ℕ
  pub last_applied : ℕ
  pub log_length : ℕ

unfoldable pub status : Raft → Status
unfolding state_name
status r = record {
  id = r.id;
  state = state_name r.state;
  term = r.term;
  leader_id = r.leader_id;
  commit_index = r.commit_index;
  last_applied = r.last_applied;
  log_length = length r.log;
}
