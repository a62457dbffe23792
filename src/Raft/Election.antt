-- ===== src/Raft/Election.antt =====
-- Elections: `startElectionLocked`, `handleVoteResponse` and `becomeLeaderLocked` of
-- internal/raft/raft.go, `RequestVote` and `TimeoutNow` of internal/raft/rpc.go, and the requests of
-- `broadcastRequestVote` of internal/raft/rpc_client.go.
pub mod Grant
pub mod Late
use mimori.Prelude.{
  Bool, List, [], false, if◌then◌else◌, int32, leb, ltb, put, str_eq, true, ℕ, ◌&&◌, ◌+◌, ◌-◌, ◌==◌,
  ◌||◌, ◌∷◌,
}
use mimori.Raft.Config.{is_known_node, majority, persist_meta}
use mimori.Raft.Log.{last_log_index, last_log_term}
use mimori.Raft.State.{
  Effect, NodeId, Raft, broadcast_request_vote, candidate, follower, heartbeat_loop,
  is_candidate_state, is_leader_state, leader,
}

pub record RequestVoteRequest : Type 0 where
  pub term : ℕ
  pub candidate_id : NodeId
  pub last_log_index : ℕ
  pub last_log_term : ℕ

pub record RequestVoteResponse : Type 0 where
  pub term : ℕ
  pub vote_granted : Bool

pub record TimeoutNowRequest : Type 0 where
  pub term : ℕ
  pub leader_id : NodeId

pub record TimeoutNowResponse : Type 0 where
  pub term : ℕ
  pub success : Bool

-- The loop over the peers of `becomeLeaderLocked`.
unfoldable pub track_peers : List NodeId → ℕ → ℕ → Raft → Raft
unfolding put
track_peers [] last_idx base r = r
track_peers (p ∷ ps) last_idx base r =
    track_peers ps last_idx base (record r {
      next_index = put p last_idx r.next_index;
      match_index = put p base r.match_index;
    })

-- `becomeLeaderLocked`; the heartbeat loop is an effect.
unfoldable pub become_leader : Raft → Raft
unfolding track_peers last_log_index
become_leader r =
    track_peers r.peers (last_log_index r + 1) r.log_base_index
      (record r { state = leader; leader_id = r.id })

unfoldable pub campaign : ℕ → Raft → Raft
unfolding persist_meta
campaign now r =
    let r1 = persist_meta (record r { state = candidate; term = r.term + 1; voted_for = r.id }) in
    record r1 { election_reset = now; votes = 1 }

-- `startElectionLocked`
unfoldable pub start_election : ℕ → Raft → Raft × List Effect
unfolding campaign majority become_leader
start_election now r =
    if r.removed_from_cluster
    then (r, [])
    else (let r1 = campaign now r in
        if leb (majority r1) r1.votes
        then (become_leader r1, heartbeat_loop ∷ [])
        else (r1, broadcast_request_vote r1.term ∷ []))

-- One tick of `runElectionTimer`, at the timeout that was drawn.
unfoldable pub election_tick : (timeout now : ℕ) → Raft → Raft × List Effect
unfolding start_election
election_tick timeout now r =
    if r.removed_from_cluster
    then (r, [])
    else (if is_leader_state r.state
        then (r, [])
        else (if leb timeout (now - r.election_reset) then start_election now r else (r, [])))

-- `handleVoteResponse`.  The term of a higher response is taken over in memory only.
unfoldable pub handle_vote_response : RequestVoteResponse → Raft → Raft × List Effect
unfolding majority become_leader
handle_vote_response resp r =
    if ltb r.term resp.term
    then (record r { term = resp.term; state = follower; voted_for = "" }, [])
    else (if is_candidate_state r.state && resp.vote_granted
        then (let r1 = record r { votes = r.votes + 1 } in
            if leb (majority r1) r1.votes
            then (become_leader r1, heartbeat_loop ∷ [])
            else (r1, []))
        else (r, []))

-- The step down to a newer term that the RPC handlers share.
unfoldable pub adopt_term : ℕ → Raft → Raft
unfolding persist_meta
adopt_term term r =
    if ltb r.term term
    then persist_meta (record r { term = term; voted_for = ""; state = follower })
    else r

-- "Enforce Raft log up-to-date rule"
unfoldable pub is_up_to_date : RequestVoteRequest → Raft → Bool
unfolding last_log_index last_log_term
is_up_to_date req r =
    ltb (last_log_term r) req.last_log_term
    || (req.last_log_term == last_log_term r && leb (last_log_index r) req.last_log_index)

unfoldable pub can_vote_for : NodeId → Raft → Bool
can_vote_for candidate_id r = str_eq r.voted_for "" || str_eq r.voted_for candidate_id

unfoldable pub grant_vote : ℕ → NodeId → Raft → Raft
unfolding persist_meta
grant_vote now candidate_id r =
    persist_meta (record r { voted_for = candidate_id; election_reset = now })

-- `RequestVote`.  The response carries the term from before the request was read.
unfoldable pub request_vote : ℕ → RequestVoteRequest → Raft → Raft × RequestVoteResponse
unfolding is_known_node adopt_term is_up_to_date can_vote_for grant_vote int32
request_vote now req r =
    let refused : RequestVoteResponse = record { term = int32 r.term; vote_granted = false } in
    let granted : RequestVoteResponse = record { term = int32 r.term; vote_granted = true } in
    let r1 = adopt_term req.term r in
    if is_known_node r req.candidate_id
    then (if ltb req.term r.term
        then (r, refused)
        else (if is_up_to_date req r1 && can_vote_for req.candidate_id r1
            then (grant_vote now req.candidate_id r1, granted)
            else (r1, refused)))
    else (r, refused)

-- The request that `broadcastRequestVote` sends to each peer with a name.
unfoldable pub vote_request : (term : ℕ) → Raft → RequestVoteRequest
unfolding last_log_index last_log_term int32
vote_request term r = record {
  term = int32 term;
  candidate_id = r.id;
  last_log_index = int32 (last_log_index r);
  last_log_term = int32 (last_log_term r);
}

-- `TimeoutNow`
unfoldable pub timeout_now : ℕ → TimeoutNowRequest → Raft → Raft × TimeoutNowResponse × List Effect
unfolding adopt_term start_election int32
timeout_now now req r =
    let refused : TimeoutNowResponse = record { term = int32 r.term; success = false } in
    if str_eq req.leader_id r.leader_id
    then (if ltb req.term r.term
        then (r, refused, [])
        else (let (r1, effects) = start_election now (adopt_term req.term r) in
            (r1, record { term = int32 r1.term; success = true }, effects)))
    else (r, refused, [])
