-- ===== src/Raft/Machine.antt =====
-- A node as a state machine: one event for each critical section of internal/raft (a handler, a timer
-- tick, the answer to a call), with what the environment chooses as its arguments, and the restart of the
-- process on its data directory.
pub mod Ballot
pub mod Files
pub mod Synced
pub mod Durable
pub mod Restart
pub mod ReadBack
pub mod Leads
pub mod Passive
pub mod Stale
pub mod Safe
pub mod Indices
pub mod SameLog
pub mod Once
pub mod Votes
pub mod Remember
pub mod Elected
use mimori.Prelude.{Bool, List, Option, [], none, some, ℕ, ◌∷◌}
use mimori.Raft.Applier.{snapshot_if_due, take_next}
use mimori.Raft.Config.{propose, propose_config_change}
use mimori.Raft.Election.{
  RequestVoteRequest, RequestVoteResponse, TimeoutNowRequest, TimeoutNowResponse, election_tick,
  handle_vote_response, request_vote, timeout_now,
}
use mimori.Raft.Init.{new}
use mimori.Raft.Replication.{AppendEntriesRequest, AppendEntriesResponse, append_entries}
use mimori.Raft.Sender.{handle_append_response, send_heartbeats}
use mimori.Raft.Snapshots.{InstallSnapshotRequest, create_snapshot, install_snapshot, snapshot_sent}
use mimori.Raft.State.{Bytes, ConfigChangeType, LogEntry, NodeId, Payload, Raft, Snapshot}
use mimori.Raft.Transfer.{transfer_answered}

pub data Event : Type 0 where
  timer_ticked : (timeout now : ℕ) → Event
  vote_answered : RequestVoteResponse → Event
  vote_requested : (now : ℕ) → RequestVoteRequest → Event
  entries_requested : (now : ℕ) → AppendEntriesRequest → Event
  snapshot_requested : (now : ℕ) → InstallSnapshotRequest → Event
  timeout_requested : (now : ℕ) → TimeoutNowRequest → Event
  command_proposed : Payload → Event
  change_proposed : ConfigChangeType → NodeId → Event
  apply_taken : (now : ℕ) → Event
  apply_finished : (now : ℕ) → Option Bytes → Event
  snapshot_forced : (now : ℕ) → Option Bytes → Event
  heartbeats_sent : Event
  append_answered : NodeId → (prev_log_index : ℕ) → List LogEntry → AppendEntriesResponse → Event
  snapshot_returned : (delivered : Bool) → NodeId → Snapshot → Event
  transfer_returned : NodeId → TimeoutNowResponse → Event
  restarted : (now : ℕ) → List NodeId → Event

unfoldable pub apply_taken_by : ℕ → Raft → Raft
unfolding take_next
apply_taken_by now r = elim (take_next now r) [ none ↦ r | some (entry, r') ↦ r' ]

unfoldable pub step : Event → Raft → Raft
unfolding apply_taken_by
step (timer_ticked timeout now) r = (election_tick timeout now r).0
step (vote_answered resp) r = (handle_vote_response resp r).0
step (vote_requested now req) r = (request_vote now req r).0
step (entries_requested now req) r = (append_entries now req r).0
step (snapshot_requested now req) r = (install_snapshot now req r).0
step (timeout_requested now req) r = (timeout_now now req r).0
step (command_proposed cmd) r = (propose cmd r).0
step (change_proposed change node) r = (propose_config_change change node r).0
step (apply_taken now) r = apply_taken_by now r
step (apply_finished now bytes) r = snapshot_if_due now bytes r
step (snapshot_forced now bytes) r = create_snapshot now bytes r
step heartbeats_sent r = (send_heartbeats r).0
step (append_answered peer prev entries resp) r =
    (handle_append_response peer prev entries resp r).0
step (snapshot_returned delivered p snap) r = snapshot_sent delivered p snap r
step (transfer_returned target resp) r = transfer_answered target resp r
step (restarted now peers) r = new now r.id peers r.disk

unfoldable pub run : List Event → Raft → Raft
unfolding step
run [] r = r
run (e ∷ es) r = run es (step e r)
