-- ===== src/Tests/Clusters.antt =====
-- Theorems about the nodes of a cluster, at a cluster of three.
use mimori.Prelude.{
  String, [], arith, if◌then◌else◌, inl, refl, str_elem, str_eq, str_eq_iff, ◌∷◌, ◌≡◌,
}
use mimori.Raft.Cluster.{IsElected, one_leader}
use mimori.Raft.Config.{majority}
use mimori.Raft.Election.{campaign, election_tick, request_vote, start_election}
use mimori.Raft.Machine.{step, timer_ticked, vote_requested}
use mimori.Raft.Machine.Elected.{Life, stood, vote_granted_to}
use mimori.Raft.State.{NodeId, Raft, leader}
use mimori.Tests.Nodes.{vote_for_b, voter}

abbrev standing_b : Raft
standing_b = record voter { id = "b"; peers = "a" ∷ "c" ∷ [] }

-- "b" stands for election and "a" votes for it.
abbrev life_at : NodeId → Life
life_at name =
    if str_eq name "a"
    then record { start = voter; events = vote_requested 10 vote_for_b ∷ [] }
    else record { start = standing_b; events = timer_ticked 0 10 ∷ [] }

abbrev elected_b : Raft
elected_b = record standing_b { state = leader; term = 4; votes = 2 }

elected_b-IsElected : IsElected life_at ("a" ∷ "b" ∷ "c" ∷ []) 4 elected_b ("a" ∷ "b" ∷ [])
unfolding str_elem majority request_vote election_tick start_election campaign
elected_b-IsElected = record {
  has_name = λ same. absurd (ground (arith, str_eq_iff "b" "", same));
  configured = refl;
  majority_counted = omega arith;
  votes_given = omega arith;
  distinct = (refl, (refl, tt));
  are_members = (refl, (refl, tt));
  supported = (
    inl (vote_granted_to 10 vote_for_b refl refl refl),
    (inl (stood 0 10 (refl, omega arith, refl, refl)), tt),
  );
}

one_leader_example : ◌≡◌ {A = String} "b" "b"
unfolding str_elem request_vote step election_tick start_election campaign
one_leader_example =
    one_leader life_at ("a" ∷ "b" ∷ "c" ∷ []) 4 elected_b elected_b ("a" ∷ "b" ∷ [])
      ("a" ∷ "b" ∷ []) ((refl, tt), (refl, tt), ((refl, tt), (refl, tt), tt)) elected_b-IsElected
      elected_b-IsElected
