-- ===== src/Raft/Election/Grant.antt =====
-- What a granted vote and a new leader stand for.
use mimori.Prelude.{
  Bool-cases, List, [], arith, false, find_int, find_int-put, inl, inr, put, refl, str_elem, true,
  ℕ, ◌+◌, ◌<◌, ◌∷◌, ◌≡◌, ◌≤◌, ◌⊎◌,
}
use mimori.Raft.Config.{is_known_node}
use mimori.Raft.Election.{RequestVoteRequest, become_leader, request_vote, track_peers}
use mimori.Raft.Log.{last_log_index, last_log_term}
use mimori.Raft.State.{NodeId, Raft, leader}

-- The log that ends in (t, i) is no older than the one that ends in (t', i').
abbrev pub IsUpToDate : (t i t' i' : ℕ) → Type 0
IsUpToDate t i t' i' = (t' < t) ⊎ ((t ≡ t') × (i' ≤ i))

-- A granted vote goes to a member, in the term of the request, which is not behind the voter's; the
-- candidate's log is no older than the voter's; and the voter has recorded the vote.
pub granted_sound :
    (now : ℕ) (req : RequestVoteRequest) (r : Raft)
    → (request_vote now req r).1.vote_granted ≡ true
    → (is_known_node r req.candidate_id ≡ true)
      × (r.term ≤ req.term)
      × IsUpToDate req.last_log_term req.last_log_index (last_log_term r) (last_log_index r)
      × ((request_vote now req r).0.term ≡ req.term)
      × ((request_vote now req r).0.voted_for ≡ req.candidate_id)
      × ((request_vote now req r).0.election_reset ≡ now)
unfolding request_vote
granted_sound now req r yes' = ground arith

find_int-track_peers_other :
    (ps : List NodeId) (last_idx base : ℕ) (r : Raft) (p : NodeId)
    → str_elem p ps ≡ false
    → (find_int p (track_peers ps last_idx base r).next_index ≡ find_int p r.next_index)
      × (find_int p (track_peers ps last_idx base r).match_index ≡ find_int p r.match_index)
unfolding track_peers str_elem
find_int-track_peers_other [] last_idx base r p out = (refl, refl)
find_int-track_peers_other (q ∷ ps) last_idx base r p out =
    let r' = record r {
      next_index = put q last_idx r.next_index;
      match_index = put q base r.match_index;
    } in
    let (n, m) = find_int-track_peers_other ps last_idx base r' p (ground arith) in
    ground
      (arith, n, m, find_int-put q p last_idx r.next_index, find_int-put q p base r.match_index)

find_int-track_peers :
    (ps : List NodeId) (last_idx base : ℕ) (r : Raft) (p : NodeId)
    → str_elem p ps ≡ true
    → (find_int p (track_peers ps last_idx base r).next_index ≡ last_idx)
      × (find_int p (track_peers ps last_idx base r).match_index ≡ base)
unfolding track_peers str_elem
find_int-track_peers [] last_idx base r p here = cc
find_int-track_peers (q ∷ ps) last_idx base r p here =
    let r' = record r {
      next_index = put q last_idx r.next_index;
      match_index = put q base r.match_index;
    } in
    elim (Bool-cases (str_elem p ps)) [
      | inl again ↦ find_int-track_peers ps last_idx base r' p again
      | inr once ↦
          let (n, m) = find_int-track_peers_other ps last_idx base r' p once in
          ground (
            arith,
            n,
            m,
            find_int-put q p last_idx r.next_index,
            find_int-put q p base r.match_index,
          )
    ]

-- A new leader starts every peer at the index past its own last entry, with the base of its log as the
-- index that is known to match.
pub become_leader-progress :
    (r : Raft) (p : NodeId)
    → str_elem p r.peers ≡ true
    → (find_int p (become_leader r).next_index ≡ last_log_index r + 1)
      × (find_int p (become_leader r).match_index ≡ r.log_base_index)
unfolding become_leader
become_leader-progress r p here =
    find_int-track_peers r.peers (last_log_index r + 1) r.log_base_index
      (record r { state = leader; leader_id = r.id }) p here

pub track_peers-role :
    (ps : List NodeId) (last_idx base : ℕ) (r : Raft)
    → ((track_peers ps last_idx base r).state ≡ r.state)
      × ((track_peers ps last_idx base r).term ≡ r.term)
      × ((track_peers ps last_idx base r).peers ≡ r.peers)
      × ((track_peers ps last_idx base r).votes ≡ r.votes)
      × ((track_peers ps last_idx base r).leader_id ≡ r.leader_id)
unfolding track_peers
track_peers-role [] last_idx base r = (refl, refl, refl, refl, refl)
track_peers-role (p ∷ ps) last_idx base r =
    track_peers-role ps last_idx base (record r {
      next_index = put p last_idx r.next_index;
      match_index = put p base r.match_index;
    })

pub become_leader-role :
    (r : Raft)
    → ((become_leader r).state ≡ leader)
      × ((become_leader r).term ≡ r.term)
      × ((become_leader r).peers ≡ r.peers)
      × ((become_leader r).votes ≡ r.votes)
      × ((become_leader r).leader_id ≡ r.id)
unfolding become_leader
become_leader-role r =
    track_peers-role r.peers (last_log_index r + 1) r.log_base_index
      (record r { state = leader; leader_id = r.id })
