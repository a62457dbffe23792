-- ===== src/Raft/Transfer/Handover.antt =====
-- A leader transfer from end to end: the request, the election at the target, and the answer.
use mimori.Prelude.{
  List, [], ap, arith, false, int32, int32-of_lt, le→ltb, put, refl, str_eq, str_eq_refl, subst,
  sym, true, ℕ, ◌+◌, ◌<◌, ◌^◌, ◌∙◌, ◌∷◌, ◌≡◌, ◌≤◌, ◌⊎◌,
}
use mimori.Raft.Config.{persist_meta}
use mimori.Raft.Election.{
  TimeoutNowRequest, TimeoutNowResponse, adopt_term, become_leader, campaign, start_election,
  timeout_now, track_peers,
}
use mimori.Raft.Log.{last_log_index}
use mimori.Raft.State.{NodeId, Raft, candidate, follower, leader}
use mimori.Raft.Transfer.{timeout_now_request, transfer_answered}

-- What an election leaves of a node's own vote.
record Stood (s s' : Raft) : Type 0 where
  term : s'.term ≡ s.term + 1
  voted_for : s'.voted_for ≡ s.id
  stands : (s'.state ≡ candidate) ⊎ (s'.state ≡ leader)

term-track_peers :
    (ps : List NodeId) (last_idx base : ℕ) (r : Raft)
    → ((track_peers ps last_idx base r).term ≡ r.term)
      × ((track_peers ps last_idx base r).voted_for ≡ r.voted_for)
      × ((track_peers ps last_idx base r).state ≡ r.state)
unfolding track_peers
term-track_peers [] last_idx base r = (refl, refl, refl)
term-track_peers (p ∷ ps) last_idx base r =
    term-track_peers ps last_idx base (record r {
      next_index = put p last_idx r.next_index;
      match_index = put p base r.match_index;
    })

term-become_leader :
    (r : Raft)
    → ((become_leader r).term ≡ r.term)
      × ((become_leader r).voted_for ≡ r.voted_for)
      × ((become_leader r).state ≡ leader)
unfolding become_leader
term-become_leader r =
    term-track_peers r.peers (last_log_index r + 1) r.log_base_index
      (record r { state = leader; leader_id = r.id })

start_election-Stood :
    (now : ℕ) (s : Raft) → s.removed_from_cluster ≡ false → Stood s (start_election now s).0
unfolding start_election campaign persist_meta
start_election-Stood now s there =
    let facts = term-become_leader (campaign now s) in ground (arith, facts)

adopted :
    (term : ℕ) (s : Raft)
    → s.term ≤ term
    → ((adopt_term term s).term ≡ term)
      × ((adopt_term term s).id ≡ s.id)
      × ((adopt_term term s).removed_from_cluster ≡ s.removed_from_cluster)
unfolding adopt_term persist_meta
adopted term s le = ground arith

timeout_now-accepted :
    (now : ℕ) (req : TimeoutNowRequest) (s : Raft)
    → s.leader_id ≡ req.leader_id
    → s.term ≤ req.term
    → let s' = (start_election now (adopt_term req.term s)).0 in
      ((timeout_now now req s).0 ≡ s')
      × ((timeout_now now req s).1.success ≡ true)
      × ((timeout_now now req s).1.term ≡ int32 s'.term)
unfolding timeout_now
timeout_now-accepted now req s known le =
    let same : str_eq req.leader_id s.leader_id ≡ true = rw known (str_eq_refl req.leader_id) in
    let behind = le→ltb req.term s.term le in rw (same, behind) (refl, refl, refl)

transfer_answered-newer :
    (target : NodeId) (resp : TimeoutNowResponse) (r : Raft)
    → resp.term ≡ r.term + 1
    → ((transfer_answered target resp r).state ≡ follower)
      × ((transfer_answered target resp r).term ≡ r.term + 1)
      × ((transfer_answered target resp r).leader_id ≡ target)
unfolding transfer_answered persist_meta
transfer_answered-newer target resp r newer = ground arith

-- When a leader sends a transfer request to a member that takes it for the leader, is not ahead of its term
-- and has not been removed, the member votes for itself in the next term and stands or leads there, and its
-- answer makes the sender a follower of that member in that term.
pub handover :
    (now : ℕ) (target : NodeId) (r s : Raft)
    → s.leader_id ≡ r.id
    → s.removed_from_cluster ≡ false
    → s.term ≤ r.term
    → r.term + 1 < 2 ^ 31
    → let answer = timeout_now now (timeout_now_request r) s in
      let r' = transfer_answered target answer.1 r in
      (answer.1.success ≡ true)
      × (answer.0.term ≡ r.term + 1)
      × (answer.0.voted_for ≡ s.id)
      × ((answer.0.state ≡ candidate) ⊎ (answer.0.state ≡ leader))
      × (r'.state ≡ follower)
      × (r'.term ≡ r.term + 1)
      × (r'.leader_id ≡ target)
unfolding timeout_now_request
handover now target r s known there le small =
    let req = timeout_now_request r in
    let whole : int32 r.term ≡ r.term = int32-of_lt r.term (omega arith) in
    let next = int32-of_lt (r.term + 1) small in
    let below : s.term ≤ req.term = omega (arith, whole) in
    let (s_is, done, said) = timeout_now-accepted now req s known below in
    let (adopted_term, same_id, still) = adopted req.term s below in
    let stood = start_election-Stood now (adopt_term req.term s) (still ∙ there) in
    let term_is : (start_election now (adopt_term req.term s)).0.term ≡ r.term + 1 =
      omega (arith, stood.term, adopted_term, whole) in
    let said_is = said ∙ (ap int32 term_is ∙ next) in
    let (follows, newer, names_target) =
      transfer_answered-newer target (timeout_now now req s).1 r said_is in
    (
      done,
      ap (λ x. x.term) s_is ∙ term_is,
      ap (λ x. x.voted_for) s_is ∙ (stood.voted_for ∙ same_id),
      subst (λ (x : Raft). (x.state ≡ candidate) ⊎ (x.state ≡ leader)) (sym s_is) stood.stands,
      follows,
      newer,
      names_target,
    )
