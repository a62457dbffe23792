-- ===== src/Raft/Machine/Remember.antt =====
-- A vote that was given stays known, in memory and on disk, through every event.
use mimori.Prelude.{arith, false, str_eq_iff, true, ℕ, ◌+◌, ◌<◌, ◌≡◌, ◌≢◌, ◌⊎◌}
use mimori.Raft.Config.{persist_meta}
use mimori.Raft.Disk.{load_meta}
use mimori.Raft.Election.{
  RequestVoteRequest, RequestVoteResponse, TimeoutNowRequest, adopt_term, become_leader, campaign,
  election_tick, handle_vote_response, request_vote, start_election, timeout_now,
}
use mimori.Raft.Machine.Ballot.{SameBallot, SameBallot-become_leader}
use mimori.Raft.State.{NodeId, Raft}

-- The vote of term `t` went to `c`, or the term is over: of a term and a vote as they stand.
abbrev pub Settled : ℕ → NodeId → ℕ → NodeId → Type 0
Settled t c term voted_for = (t < term) ⊎ ((t ≡ term) × (voted_for ≡ c))

pub record Remembers (t : ℕ) (c : NodeId) (r : Raft) : Type 0 where
  pub writable : r.disk.meta_writable ≡ true
  pub in_memory : Settled t c r.term r.voted_for
  pub on_disk : Settled t c (load_meta r.disk).term (load_meta r.disk).voted_for

-- What a node that is still a member remembers.
abbrev pub Recalls : ℕ → NodeId → Raft → Type 0
Recalls t c r = (r.removed_from_cluster ≡ false) × Remembers t c r

module _ (t : ℕ) (c : NodeId) where
  pub Remembers-same : (r s : Raft) → SameBallot r s → Remembers t c r → Remembers t c s
  unfolding load_meta
  Remembers-same r s same m = ground arith

  pub Remembers-persist_meta :
      (r : Raft)
      → r.disk.meta_writable ≡ true
      → Settled t c r.term r.voted_for
      → Remembers t c (persist_meta r)
  unfolding persist_meta load_meta
  Remembers-persist_meta r w m = ground arith

  pub Remembers-adopt_term :
      (term : ℕ) (r : Raft) → Remembers t c r → Remembers t c (adopt_term term r)
  unfolding adopt_term load_meta
  Remembers-adopt_term term r m = ground arith

  pub Remembers-campaign : (now : ℕ) (r : Raft) → Remembers t c r → Remembers t c (campaign now r)
  unfolding campaign load_meta
  Remembers-campaign now r m = ground arith

  pub Remembers-start_election :
      (now : ℕ) (r : Raft) → Remembers t c r → Remembers t c (start_election now r).0
  unfolding start_election
  Remembers-start_election now r m = ground (
    arith,
    Remembers-campaign now r m,
    Remembers-same (campaign now r) (become_leader (campaign now r))
        (SameBallot-become_leader (campaign now r)),
  )

  pub Remembers-election_tick :
      (timeout now : ℕ) (r : Raft) → Remembers t c r → Remembers t c (election_tick timeout now r).0
  unfolding election_tick
  Remembers-election_tick timeout now r m = ground (arith, Remembers-start_election now r m)

  pub Remembers-handle_vote_response :
      (resp : RequestVoteResponse) (r : Raft)
      → Remembers t c r
      → Remembers t c (handle_vote_response resp r).0
  unfolding handle_vote_response
  Remembers-handle_vote_response resp r m =
      let counted = record r { votes = r.votes + 1 } in
      ground
        (arith, Remembers-same counted (become_leader counted) (SameBallot-become_leader counted))

  pub Remembers-request_vote :
      (now : ℕ) (req : RequestVoteRequest) (r : Raft)
      → c ≢ ""
      → Remembers t c r
      → Remembers t c (request_vote now req r).0
  unfolding request_vote load_meta
  Remembers-request_vote now req r named m =
      ground (arith, str_eq_iff r.voted_for "", str_eq_iff r.voted_for req.candidate_id)

  pub Remembers-timeout_now :
      (now : ℕ) (req : TimeoutNowRequest) (r : Raft)
      → Remembers t c r
      → Remembers t c (timeout_now now req r).0
  unfolding timeout_now
  Remembers-timeout_now now req r m = ground (
    arith,
    Remembers-start_election now (adopt_term req.term r) (Remembers-adopt_term req.term r m),
  )
