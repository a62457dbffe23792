-- ===== src/Tests/Rounds.antt =====
-- Theorems about a leader and a follower together, at concrete nodes.
use mimori.Prelude.{[], arith, refl, some, str_elem, true, ◌∷◌, ◌≡◌, ◌⊎◌}
use mimori.Raft.Config.{is_known_node}
use mimori.Raft.Election.{timeout_now}
use mimori.Raft.Log.{entry_at, last_log_index, slice_from}
use mimori.Raft.Log.Contiguous.{Contiguous}
use mimori.Raft.Replication.{append_entries}
use mimori.Raft.Sender.{
  batch_request, collect_entries, heartbeat_to, is_behind_snapshot, next_for, send_batches, term_at,
}
use mimori.Raft.Sender.Delivered.{delivered-entry_at}
use mimori.Raft.Sender.Sent.{FitInt32, heartbeat_to-slice_from}
use mimori.Raft.State.{LogEntry, Raft, candidate, follower, leader}
use mimori.Raft.Transfer.{timeout_now_request, transfer_answered}
use mimori.Raft.Transfer.Handover.{handover}
use mimori.Tests.Nodes.{chief, chief-WellFormed, entry, log_of_three, voter}

-- A follower that has only the first entry of the leader "a".
abbrev short_voter : Raft
short_voter = record voter {
  id = "c";
  peers = "a" ∷ "b" ∷ [];
  term = 2;
  log = entry 0 0 ∷ [];
  commit_index = 0;
}

chief-FitInt32 : FitInt32 chief.log
chief-FitInt32 =
    (omega arith, omega arith, (omega arith, omega arith, (omega arith, omega arith, tt)))

heartbeat_to-slice_from_example :
    (heartbeat_to "c" chief ≡ send_batches 0 0 (slice_from chief 1) 1)
    × Contiguous 1 (slice_from chief 1)
unfolding next_for is_behind_snapshot term_at entry_at last_log_index
heartbeat_to-slice_from_example =
    heartbeat_to-slice_from "c" chief chief-WellFormed chief-FitInt32 refl (omega arith)
      (omega arith)

delivered-entry_at_example :
    (x : LogEntry) × (entry_at
        (append_entries 5 (batch_request 2 "a" 0 0 (entry 1 1 ∷ entry 2 2 ∷ []) 1) short_voter).0
        2
      ≡ some x)
    × (x.term ≡ 2)
unfolding next_for is_behind_snapshot term_at entry_at last_log_index heartbeat_to collect_entries
    slice_from append_entries is_known_node batch_request str_elem
delivered-entry_at_example =
    delivered-entry_at "c" 5 chief short_voter chief-WellFormed chief-FitInt32 (omega arith)
      (omega arith) (omega arith) (omega arith) (omega arith) 0 0 (entry 1 1 ∷ entry 2 2 ∷ []) 1
      refl refl 1 (entry 2 2) refl

-- The leader "a" of term 2 hands over to "c", which has its whole log.
abbrev target_voter : Raft
target_voter = record short_voter { log = log_of_three; leader_id = "a" }

handover_example :
    let answer = timeout_now 5 (timeout_now_request chief) target_voter in
    let r' = transfer_answered "c" answer.1 chief in
    (answer.1.success ≡ true)
    × (answer.0.term ≡ 3)
    × (answer.0.voted_for ≡ "c")
    × ((answer.0.state ≡ candidate) ⊎ (answer.0.state ≡ leader))
    × (r'.state ≡ follower)
    × (r'.term ≡ 3)
    × (r'.leader_id ≡ "c")
handover_example = handover 5 "c" chief target_voter refl refl (omega arith) (omega arith)
