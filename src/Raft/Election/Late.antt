-- ===== src/Raft/Election/Late.antt =====
-- A vote that arrives in a later election than the one that it was asked for in.
use mimori.Prelude.{arith, false, int32, int32-le, refl, true, ℕ, ◌+◌, ◌≡◌, ◌≤◌}
use mimori.Raft.Config.{majority, persist_meta}
use mimori.Raft.Election.{
  RequestVoteRequest, RequestVoteResponse, campaign, handle_vote_response, request_vote,
  start_election, vote_request,
}
use mimori.Raft.Election.Grant.{become_leader-role, granted_sound}
use mimori.Raft.State.{Raft, candidate, leader}

response-term :
    (now : ℕ) (req : RequestVoteRequest) (r : Raft) → (request_vote now req r).1.term ≡ int32 r.term
unfolding request_vote
response-term now req r = ground arith

-- The response to a request has no higher term than the request, when the vote is granted.
granted-term :
    (now : ℕ) (req : RequestVoteRequest) (r : Raft)
    → (request_vote now req r).1.vote_granted ≡ true
    → (request_vote now req r).1.term ≤ req.term
granted-term now req r granted =
    let sound = granted_sound now req r granted in
    omega (arith, response-term now req r, int32-le r.term, sound.1)

-- A campaign in which the own vote is no majority.
record Campaigns (r s : Raft) : Type 0 where
  state : s.state ≡ candidate
  term : s.term ≡ r.term + 1
  votes : s.votes ≡ 1
  stays : s.removed_from_cluster ≡ false
  enough : majority s ≡ 2

start_election-Campaigns :
    (now : ℕ) (r : Raft)
    → r.removed_from_cluster ≡ false
    → majority r ≡ 2
    → Campaigns r (start_election now r).0
unfolding start_election campaign persist_meta majority
start_election-Campaigns now r stays enough =
    rw (start_election, stays, enough)
      (record { state = refl; term = refl; votes = refl; stays = refl; enough = enough })

counted :
    (resp : RequestVoteResponse) (r : Raft)
    → r.state ≡ candidate
    → resp.term ≤ r.term
    → resp.vote_granted ≡ true
    → majority r ≤ r.votes + 1
    → ((handle_vote_response resp r).0.state ≡ leader)
      × ((handle_vote_response resp r).0.term ≡ r.term)
unfolding handle_vote_response majority
counted resp r asks old granted enough =
    ground (arith, become_leader-role (record r { votes = r.votes + 1 }))

vote_request-term : (term : ℕ) (r : Raft) → (vote_request term r).term ≤ term
unfolding vote_request
vote_request-term term r = int32-le term

-- A candidate for whom two votes are a majority asks a voter in one election, and the voter grants its vote.
-- If that answer arrives only after the candidate has started its next election, it makes the candidate the
-- leader of the later term, although the voter's term was at most that of the earlier election when it
-- answered.
pub late_vote-elects :
    (now later answered_at : ℕ) (r other : Raft)
    → r.removed_from_cluster ≡ false
    → majority r ≡ 2
    → let first = (start_election now r).0 in
      let second = (start_election later first).0 in
      let answer = request_vote answered_at (vote_request first.term first) other in
      answer.1.vote_granted ≡ true
      → (first.term ≡ r.term + 1)
        × (second.state ≡ candidate)
        × ((handle_vote_response answer.1 second).0.state ≡ leader)
        × ((handle_vote_response answer.1 second).0.term ≡ r.term + 2)
        × (answer.0.term ≤ first.term)
late_vote-elects now later answered_at r other stays enough granted =
    let first = (start_election now r).0 in
    let c1 = start_election-Campaigns now r stays enough in
    let c2 = start_election-Campaigns later first c1.stays c1.enough in
    let req = vote_request first.term first in
    let small = vote_request-term first.term first in
    let sound = granted_sound answered_at req other granted in
    let answer = (request_vote answered_at req other).1 in
    let old = granted-term answered_at req other granted in
    let (leads, term) =
      counted answer (start_election later first).0 c2.state (omega (arith, old, small, c2.term))
        granted (omega (arith, c2.votes, c2.enough)) in
    (c1.term, c2.state, leads, omega (arith, term, c1.term, c2.term), omega (arith, sound.3, small))
