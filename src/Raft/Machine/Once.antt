-- ===== src/Raft/Machine/Once.antt =====
-- What a node that granted a vote will grant later.
use mimori.Prelude.{List, [], arith, false, str_eq_iff, true, ℕ, ◌∷◌, ◌≡◌, ◌≢◌}
use mimori.Raft.Disk.{load_meta}
use mimori.Raft.Election.{RequestVoteRequest, request_vote}
use mimori.Raft.Machine.{Event, run, step}
use mimori.Raft.Machine.Remember.{Remembers}
use mimori.Raft.Machine.Votes.{Remembers-step}
use mimori.Raft.State.{NodeId, Raft}

-- The node is a member after each of the events.
abbrev pub StaysMember : List Event → Raft → Type 0
StaysMember [] r = Unit {0}
StaysMember (e ∷ es) r = ((step e r).removed_from_cluster ≡ false) × StaysMember es (step e r)

pub Remembers-run :
    (t : ℕ) (c : NodeId) (es : List Event) (r : Raft)
    → c ≢ ""
    → StaysMember es r
    → Remembers t c r
    → Remembers t c (run es r)
unfolding run
Remembers-run t c [] r named stays m = m
Remembers-run t c (e ∷ es) r named stays m =
    Remembers-run t c es (step e r) named stays.1 (Remembers-step t c e r named stays.0 m)

-- A vote is granted to a named candidate, and is in memory and on disk when the answer is sent.
pub granted-Remembers :
    (now : ℕ) (req : RequestVoteRequest) (r : Raft)
    → r.disk.meta_writable ≡ true
    → (request_vote now req r).1.vote_granted ≡ true
    → (req.candidate_id ≢ "") × Remembers req.term req.candidate_id (request_vote now req r).0
unfolding request_vote load_meta
granted-Remembers now req r writable yes' = ground (arith, str_eq_iff req.candidate_id "")

-- A node that remembers a vote of a term grants no other in that term.
pub granted-after :
    (t : ℕ) (c : NodeId) (now : ℕ) (req : RequestVoteRequest) (r : Raft)
    → c ≢ ""
    → Remembers t c r
    → (request_vote now req r).1.vote_granted ≡ true
    → req.term ≡ t
    → req.candidate_id ≡ c
unfolding request_vote load_meta
granted-after t c now req r named m yes' same =
    ground (arith, str_eq_iff r.voted_for "", str_eq_iff r.voted_for req.candidate_id)

-- If the node grants a vote, then lives through any events, crashes and restarts on its data directory
-- included, while its vote file can be written and no applied entry removes it from the cluster, and
-- then grants a vote in the same term, both votes go to the same candidate.
pub vote_once :
    (now later : ℕ) (req req' : RequestVoteRequest) (es : List Event) (r : Raft)
    → r.disk.meta_writable ≡ true
    → (request_vote now req r).1.vote_granted ≡ true
    → StaysMember es (request_vote now req r).0
    → (request_vote later req' (run es (request_vote now req r).0)).1.vote_granted ≡ true
    → req'.term ≡ req.term
    → req'.candidate_id ≡ req.candidate_id
vote_once now later req req' es r writable first stays second same =
    let (named, m) = granted-Remembers now req r writable first in
    granted-after req.term req.candidate_id later req' (run es (request_vote now req r).0) named
      (Remembers-run req.term req.candidate_id es (request_vote now req r).0 named stays m) second
      same
