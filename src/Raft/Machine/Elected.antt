-- ===== src/Raft/Machine/Elected.antt =====
-- Election safety: the votes that the nodes of a cluster give in the course of their events.
use mimori.Prelude.{
  Bool-cases, List, [], arith, false, inl, inr, refl, str_elem, str_eq, str_eq→eq, subst, sym, true,
  ℕ, ◌+◌, ◌<◌, ◌∙◌, ◌∷◌, ◌≡◌, ◌≢◌, ◌⊎◌,
}
use mimori.Raft.Disk.{load_meta}
use mimori.Raft.Election.{
  RequestVoteRequest, TimeoutNowRequest, adopt_term, become_leader, campaign, election_tick,
  request_vote, start_election, timeout_now, track_peers,
}
use mimori.Raft.Log.{last_log_index}
use mimori.Raft.Machine.{Event, step, timeout_requested, timer_ticked, vote_requested}
use mimori.Raft.Machine.Ballot.{SameBallot-become_leader}
use mimori.Raft.Machine.Once.{StaysMember, granted-Remembers, granted-after}
use mimori.Raft.Machine.Remember.{Remembers, Remembers-same}
use mimori.Raft.Machine.Votes.{Remembers-step}
use mimori.Raft.State.{NodeId, Raft, is_follower_state, leader}

-- From `r` the node became a candidate, or the leader, of the new term `t` under the name `c`.
abbrev Stands : ℕ → NodeId → Raft → Raft → Type 0
Stands t c r s = (is_follower_state s.state ≡ false) × (r.term < s.term) × (s.term ≡ t) × (s.id ≡ c)

-- In the event the node votes for `c` in the term `t`: it answers a request with a granted vote, or
-- stands for election itself.
pub data GivesVote (t : ℕ) (c : NodeId) : Event → Raft → Type 0 where
  vote_granted_to :
      (now : ℕ) (req : RequestVoteRequest) {r : Raft}
      → (request_vote now req r).1.vote_granted ≡ true
      → req.term ≡ t
      → req.candidate_id ≡ c
      → GivesVote t c (vote_requested now req) r
  stood :
      (timeout now : ℕ) {r : Raft}
      → Stands t c r (election_tick timeout now r).0
      → GivesVote t c (timer_ticked timeout now) r
  told :
      (now : ℕ) (req : TimeoutNowRequest) {r : Raft}
      → Stands t c r (timeout_now now req r).0
      → GivesVote t c (timeout_requested now req) r

-- In one of the events the node votes for `c` in the term `t`.
abbrev pub Voted : ℕ → NodeId → List Event → Raft → Type 0
Voted t c [] r = ⊥
Voted t c (e ∷ es) r = GivesVote t c e r ⊎ Voted t c es (step e r)

-- The vote file can be written whenever an event starts.
abbrev pub StaysWritable : List Event → Raft → Type 0
StaysWritable [] r = Unit {0}
StaysWritable (e ∷ es) r = (r.disk.meta_writable ≡ true) × StaysWritable es (step e r)

start_election-Remembers :
    (t : ℕ) (c : NodeId) (now : ℕ) (r : Raft)
    → r.disk.meta_writable ≡ true
    → t ≡ r.term + 1
    → c ≡ r.id
    → r.removed_from_cluster ≡ false
    → Remembers t c (start_election now r).0
unfolding start_election campaign load_meta
start_election-Remembers t c now r writable new_term own member =
    let r1 = campaign now r in
    let standing : Remembers t c r1 = ground arith in
    ground (arith, Remembers-same t c r1 (become_leader r1) (SameBallot-become_leader r1) standing)

id-track_peers :
    (ps : List NodeId) (last_idx base : ℕ) (r : Raft) → (track_peers ps last_idx base r).id ≡ r.id
unfolding track_peers
id-track_peers [] last_idx base r = refl
id-track_peers (p ∷ ps) last_idx base r = id-track_peers ps last_idx base _

id-start_election : (now : ℕ) (r : Raft) → (start_election now r).0.id ≡ r.id
unfolding start_election become_leader campaign
id-start_election now r = ground (
  arith,
  id-track_peers r.peers (last_log_index (campaign now r) + 1) r.log_base_index
      (record (campaign now r) { state = leader; leader_id = r.id }),
)

term-start_election :
    (now : ℕ) (r : Raft)
    → r.removed_from_cluster ≡ false
    → (start_election now r).0.term ≡ r.term + 1
unfolding start_election campaign
term-start_election now r member = ground (arith, SameBallot-become_leader (campaign now r))

-- A node that votes remembers it.
GivesVote-Remembers :
    (t : ℕ) (c : NodeId) (e : Event) (r : Raft)
    → r.disk.meta_writable ≡ true
    → GivesVote t c e r
    → Remembers t c (step e r)
unfolding step election_tick timeout_now adopt_term
GivesVote-Remembers t c _ r writable (vote_granted_to now req yes' same_term same_name) =
    subst (λ s. Remembers s c (request_vote now req r).0) same_term
      (subst (λ d. Remembers req.term d (request_vote now req r).0) same_name
        (granted-Remembers now req r writable yes').1)
GivesVote-Remembers t c _ r writable (stood timeout now v) = ground (
  arith,
  start_election-Remembers t c now r writable,
  id-start_election now r,
  term-start_election now r,
)
GivesVote-Remembers t c _ r writable (told now req v) =
    let r1 = adopt_term req.term r in
    ground (
      arith,
      start_election-Remembers t c now r1,
      id-start_election now r1,
      term-start_election now r1,
    )

-- A node that remembers a vote gives no other in its term.
GivesVote-after :
    (t : ℕ) (c d : NodeId) (e : Event) (r : Raft)
    → c ≢ ""
    → Remembers t c r
    → GivesVote t d e r
    → c ≡ d
GivesVote-after t c d _ r named m (vote_granted_to now req yes' same_term same_name) =
    sym (granted-after t c now req r named m yes' same_term) ∙ same_name
GivesVote-after t c d _ r named m (stood timeout now v) = absurd (omega (arith, m.in_memory))
GivesVote-after t c d _ r named m (told now req v) = absurd (omega (arith, m.in_memory))

GivesVote-unique :
    (t : ℕ) (c d : NodeId) (e : Event) (r : Raft) → GivesVote t c e r → GivesVote t d e r → c ≡ d
GivesVote-unique t c d _ r (vote_granted_to now req yes' s n)
      (vote_granted_to now' req' yes'' s' n') =
    sym n ∙ n'
GivesVote-unique t c d _ r (stood timeout now v) (stood _ _ w) = sym v.3 ∙ w.3
GivesVote-unique t c d _ r (told now req v) (told _ _ w) = sym v.3 ∙ w.3

Voted-after :
    (t : ℕ) (c d : NodeId) (es : List Event) (r : Raft)
    → c ≢ ""
    → StaysMember es r
    → Remembers t c r
    → Voted t d es r
    → c ≡ d
Voted-after t c d [] r named stays m v = absurd v
Voted-after t c d (e ∷ es) r named stays m (inl v) = GivesVote-after t c d e r named m v
Voted-after t c d (e ∷ es) r named stays m (inr later) =
    Voted-after t c d es (step e r) named stays.1 (Remembers-step t c e r named stays.0 m) later

-- A node votes for one candidate in a term.
pub Voted-unique :
    (t : ℕ) (c d : NodeId) (es : List Event) (r : Raft)
    → c ≢ ""
    → d ≢ ""
    → StaysWritable es r
    → StaysMember es r
    → Voted t c es r
    → Voted t d es r
    → c ≡ d
Voted-unique t c d [] r nc nd writable stays v w = absurd v
Voted-unique t c d (e ∷ es) r nc nd writable stays (inl v) (inl w) = GivesVote-unique t c d e r v w
Voted-unique t c d (e ∷ es) r nc nd writable stays (inl v) (inr w) =
    Voted-after t c d es (step e r) nc stays.1 (GivesVote-Remembers t c e r writable.0 v) w
Voted-unique t c d (e ∷ es) r nc nd writable stays (inr v) (inl w) =
    sym (Voted-after t d c es (step e r) nd stays.1 (GivesVote-Remembers t d e r writable.0 w) v)
Voted-unique t c d (e ∷ es) r nc nd writable stays (inr v) (inr w) =
    Voted-unique t c d es (step e r) nc nd writable.1 stays.1 v w

-- A node of the cluster: its state at the start and the events of its life.
pub record Life : Type 0 where
  pub start : Raft
  pub events : List Event

-- Each of the voters votes for `c` in the term `t`, and up to the end of its life is a member that can
-- write its vote file.
abbrev pub Supports : (NodeId → Life) → ℕ → NodeId → List NodeId → Type 0
Supports life t c [] = Unit {0}
Supports life t c (v ∷ vs) = Voted t c (life v).events (life v).start × Supports life t c vs

abbrev pub Steady : (NodeId → Life) → List NodeId → Type 0
Steady life [] = Unit {0}
Steady life (v ∷ vs) =
    StaysWritable (life v).events (life v).start
    × StaysMember (life v).events (life v).start
    × Steady life vs

pub Supports-elem :
    (life : NodeId → Life) (t : ℕ) (c v : NodeId) (vs : List NodeId)
    → Supports life t c vs
    → str_elem v vs ≡ true
    → Voted t c (life v).events (life v).start
unfolding str_elem
Supports-elem life t c v [] votes elem = cc
Supports-elem life t c v (w ∷ vs) votes elem = elim (Bool-cases (str_eq w v)) [
  | inl same ↦ subst (λ u. Voted t c (life u).events (life u).start) (str_eq→eq w v same) votes.0
  | inr other ↦ Supports-elem life t c v vs votes.1 (ground arith)
]
