-- ===== src/Tests/Leaders.antt =====
-- Theorems about elections, commitment and progress, at concrete nodes.
use mimori.Prelude.{[], arith, false, refl, some, str_elem, true, ◌∷◌, ◌≡◌, ◌≤◌}
use mimori.Raft.Config.{is_known_node, majority}
use mimori.Raft.Election.{handle_vote_response, request_vote, start_election, vote_request}
use mimori.Raft.Election.Grant.{IsUpToDate, granted_sound}
use mimori.Raft.Election.Late.{late_vote-elects}
use mimori.Raft.Log.{last_log_index, last_log_term}
use mimori.Raft.Sender.{backtrack, handle_append_response, is_behind_snapshot, next_for}
use mimori.Raft.Sender.Progress.{lost_snapshot-sticks}
use mimori.Raft.Snapshots.{snapshot_sent}
use mimori.Raft.State.{Raft, Snapshot, candidate, leader}
use mimori.Tests.Nodes.{chief, vote_for_b, voter}

abbrev waiting : Raft
waiting = record chief { match_index = ("b", 1) ∷ ("c", 0) ∷ [] }

granted_sound_example :
    (is_known_node voter "b" ≡ true)
    × (voter.term ≤ 4)
    × IsUpToDate 2 2 (last_log_term voter) (last_log_index voter)
    × ((request_vote 9 vote_for_b voter).0.term ≡ 4)
    × ((request_vote 9 vote_for_b voter).0.voted_for ≡ "b")
    × ((request_vote 9 vote_for_b voter).0.election_reset ≡ 9)
unfolding request_vote str_elem
granted_sound_example = granted_sound 9 vote_for_b voter refl

abbrev other_voter : Raft
other_voter = record voter { id = "b"; peers = "a" ∷ "c" ∷ []; leader_id = "" }

late_vote-elects_example :
    ((start_election 9 voter).0.term ≡ 4)
    × ((start_election 20 (start_election 9 voter).0).0.state ≡ candidate)
    × ((handle_vote_response
          (request_vote 10 (vote_request 4 (start_election 9 voter).0) other_voter).1
          (start_election 20 (start_election 9 voter).0).0).0.state
        ≡ leader)
    × ((handle_vote_response
          (request_vote 10 (vote_request 4 (start_election 9 voter).0) other_voter).1
          (start_election 20 (start_election 9 voter).0).0).0.term
        ≡ 5)
    × ((request_vote 10 (vote_request 4 (start_election 9 voter).0) other_voter).0.term ≤ 4)
unfolding majority start_election request_vote vote_request str_elem
late_vote-elects_example = late_vote-elects 9 20 10 voter other_voter refl refl refl

abbrev old_snapshot : Snapshot
old_snapshot = record {
  last_included_index = 0;
  last_included_term = 0;
  created_at = 1;
  bytes = [];
}

lost_snapshot-sticks_example :
    let s = snapshot_sent false "c" old_snapshot (record chief { snapshot = some old_snapshot }) in
    (is_behind_snapshot (next_for "c" s) s ≡ false)
    × (handle_append_response "c" 0 [] (record { term = 2; success = false }) s ≡ (s, false))
    × ((backtrack "c" s).1 ≡ false)
lost_snapshot-sticks_example =
    lost_snapshot-sticks "c" old_snapshot 0 [] (record { term = 2; success = false })
      (record chief { snapshot = some old_snapshot }) refl refl refl (omega arith)
