-- ===== src/Raft/Cluster.antt =====
-- The nodes of a cluster together: elections by `startElectionLocked`, `handleVoteResponse` and
-- `RequestVote` of internal/raft.
use mimori.Prelude.{
  Bool-cases, Distinct, Distinct-overlap, List, Within, [], arith, inl, inr, length, str_elem,
  str_eq, str_eq→eq, subst, true, ℕ, ◌+◌, ◌∷◌, ◌≡◌, ◌≢◌, ◌≤◌,
}
use mimori.Raft.Config.{majority}
use mimori.Raft.Machine.Elected.{Life, StaysWritable, Steady, Supports, Supports-elem, Voted-unique}
use mimori.Raft.Machine.Once.{StaysMember}
use mimori.Raft.State.{NodeId, Raft}

-- The node counted a majority of votes in the term `t`, and each of them is the vote of a
-- different member in this term.
pub record IsElected (life : NodeId → Life) (members : List NodeId) (t : ℕ) (r : Raft)
    (voters : List NodeId) : Type 0 where
  pub has_name : r.id ≢ ""
  pub configured : length r.peers + 1 ≡ length members
  pub majority_counted : majority r ≤ r.votes
  pub votes_given : r.votes ≤ length voters
  pub distinct : Distinct voters
  pub are_members : Within voters members
  pub supported : Supports life t r.id voters

Steady-elem :
    (life : NodeId → Life) (v : NodeId) (vs : List NodeId)
    → Steady life vs
    → str_elem v vs ≡ true
    → StaysWritable (life v).events (life v).start × StaysMember (life v).events (life v).start
unfolding str_elem
Steady-elem life v [] steady elem = cc
Steady-elem life v (w ∷ vs) steady elem = elim (Bool-cases (str_eq w v)) [
  | inl same ↦
      subst
        (λ u.
          StaysWritable (life u).events (life u).start × StaysMember (life u).events (life u).start)
        (str_eq→eq w v same) (steady.0, steady.1)
  | inr other ↦ Steady-elem life v vs steady.2 (ground arith)
]

-- Two majorities share a voter.
IsElected-share :
    (life : NodeId → Life) (members : List NodeId) (t : ℕ) (r s : Raft) (vs ws : List NodeId)
    → IsElected life members t r vs
    → IsElected life members t s ws
    → (v : NodeId) × (str_elem v vs ≡ true) × (str_elem v ws ≡ true)
unfolding majority
IsElected-share life members t r s vs ws p q =
    Distinct-overlap vs ws members p.distinct q.distinct p.are_members q.are_members (
      omega (
        arith, p.configured, q.configured, p.majority_counted, q.majority_counted, p.votes_given,
        q.votes_given,
      ))

-- If two nodes each counted a majority of votes in one term, the counted votes of each are votes that
-- distinct members of one cluster gave it in that term, every voter of the first stays a member that can
-- write its vote file through its events, crashes and restarts included, and each of the two nodes knows
-- as many members as the cluster has, then they are the same node.
pub one_leader :
    (life : NodeId → Life) (members : List NodeId) (t : ℕ) (r s : Raft) (vs ws : List NodeId)
    → Steady life vs
    → IsElected life members t r vs
    → IsElected life members t s ws
    → r.id ≡ s.id
one_leader life members t r s vs ws steady p q =
    let (v, in_vs, in_ws) = IsElected-share life members t r s vs ws p q in
    let (writable, stays) = Steady-elem life v vs steady in_vs in
    Voted-unique t r.id s.id (life v).events (life v).start p.has_name q.has_name writable stays
      (Supports-elem life t r.id v vs p.supported in_vs)
      (Supports-elem life t s.id v ws q.supported in_ws)
