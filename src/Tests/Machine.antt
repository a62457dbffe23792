-- ===== src/Tests/Machine.antt =====
-- Theorems about events, at concrete nodes.
use mimori.Prelude.{String, [], arith, none, refl, some, true, ◌∷◌, ◌≡◌, ◌⊎◌}
use mimori.Raft.Applier.{apply_loop}
use mimori.Raft.Applier.Order.{apply_loop-drains}
use mimori.Raft.Config.{majority, replay_config_changes}
use mimori.Raft.Election.{become_leader, handle_vote_response, request_vote, track_peers}
use mimori.Raft.Init.{boot, new}
use mimori.Raft.Invariant.{WellFormed}
use mimori.Raft.Log.{slice_from}
use mimori.Raft.Machine.{
  Event, entries_requested, restarted, run, step, timeout_requested, vote_answered,
}
use mimori.Raft.Machine.Leads.{HasMajority, step-HasMajority}
use mimori.Raft.Machine.Once.{vote_once}
use mimori.Raft.Machine.Passive.{IsPassive, step-IsPassive}
use mimori.Raft.Machine.Safe.{step-WellFormed}
use mimori.Raft.Replication.{same_term_at}
use mimori.Raft.Snapshots.{create_snapshot}
use mimori.Raft.Snapshots.Compaction.{slice_from-create_snapshot}
use mimori.Raft.State.{Raft, candidate, leader}
use mimori.Tests.Nodes.{entry, two_entries, vote_for_b, voter, voter-WellFormed}

-- "a" votes for "b", restarts, and is asked again by "b".
vote_once_example : ◌≡◌ {A = String} "b" "b"
unfolding request_vote run step new boot replay_config_changes
vote_once_example =
    vote_once 10 20 vote_for_b vote_for_b (restarted 15 ("b" ∷ "c" ∷ []) ∷ []) voter refl refl
      (refl, tt) refl refl

step-WellFormed_example : WellFormed (step (entries_requested 5 two_entries) voter)
unfolding same_term_at
step-WellFormed_example =
    step-WellFormed (entries_requested 5 two_entries) voter ((refl, (refl, tt)), (refl, (refl, tt)))
      voter-WellFormed

apply_loop-drains_example :
    ((apply_loop 1 5 none voter).0 ≡ entry 1 1 ∷ [])
    × ((apply_loop 1 5 none voter).1.last_applied ≡ 1)
    × ((apply_loop 1 5 none voter).1.commit_index ≡ 1)
unfolding slice_from
apply_loop-drains_example = apply_loop-drains 1 5 none voter voter-WellFormed refl

slice_from-create_snapshot_example :
    (slice_from (create_snapshot 5 (some []) (record voter { snapshotter = true })) 1
      ≡ entry 1 1 ∷ entry 2 2 ∷ [])
    × ((create_snapshot 5 (some []) (record voter { snapshotter = true })).commit_index ≡ 1)
    × ((create_snapshot 5 (some []) (record voter { snapshotter = true })).last_applied ≡ 0)
unfolding slice_from
slice_from-create_snapshot_example =
    slice_from-create_snapshot 5 (some []) (record voter { snapshotter = true }) 1
      (omega (arith, voter-WellFormed)) (omega arith)

-- A removed node is told to stand for election.
abbrev removed_voter : Raft
removed_voter = record voter { peers = []; leader_id = ""; removed_from_cluster = true }

abbrev told_to_stand : Event
told_to_stand = timeout_requested 5 (record { term = 4; leader_id = "" })

step-IsPassive_example : IsPassive (step told_to_stand removed_voter)
step-IsPassive_example =
    step-IsPassive told_to_stand removed_voter tt (record { is_removed = refl; follows = refl })

-- A candidate of three nodes gets its second vote.
abbrev standing_voter : Raft
standing_voter = record voter { state = candidate; votes = 1; voted_for = "a" }

step-HasMajority_example :
    (standing_voter.state ≡ leader)
    ⊎ HasMajority (step (vote_answered (record { term = 3; vote_granted = true })) standing_voter)
unfolding step handle_vote_response majority become_leader track_peers
step-HasMajority_example =
    step-HasMajority (vote_answered (record { term = 3; vote_granted = true })) standing_voter tt
      refl
