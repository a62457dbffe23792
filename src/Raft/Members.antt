-- ===== src/Raft/Members.antt =====
-- The calls that change the cluster: `AddNodeInternal` and `RemoveNodeInternal` of internal/raft/raft.go,
-- and `AddNode`, `RemoveNode` and `TransferLeadership` of internal/raft/rpc.go.
--
-- A change is asked for in one critical section, and answered when the entry was applied or five seconds
-- have passed: what happens to the node in between is a list of events, and `in_time` says whether the
-- waiter was closed first.
pub mod Pending
use mimori.Prelude.{Bool, List, if◌then◌else◌, ℕ}
use mimori.Raft.Config.{propose_config_change}
use mimori.Raft.Machine.{Event, run}
use mimori.Raft.Pool.{Pool, remove_connection}
use mimori.Raft.Query.{is_leader}
use mimori.Raft.Sender.{send_heartbeats}
use mimori.Raft.State.{
  ConfigChangeType, Error, NodeId, Raft, Result, config_add_node, config_remove_node, err, ok,
}
use mimori.Raft.Transfer.{transfer_leadership}

-- The errors in the answers.
pub data ChangeError : Type 0 where
  answering_not_leader : ChangeError
  refused_with : Error → ChangeError
  timed_out : ChangeError

-- `AddNodeResponse`, `RemoveNodeResponse` and `TransferLeadershipResponse`.
pub data ChangeAnswer : Type 0 where
  change_made : ChangeAnswer
  failed_with : ChangeError → ChangeAnswer

-- The part of `AddNodeInternal` and `RemoveNodeInternal` up to the wait: the proposal and the heartbeats
-- that follow it.
unfoldable pub ask_change : ConfigChangeType → NodeId → Raft → Raft × Result ℕ
unfolding propose_config_change send_heartbeats
ask_change change node r = elim (propose_config_change change node r).1 [
  | err e ↦ ((propose_config_change change node r).0, err e)
  | ok index ↦ ((send_heartbeats (propose_config_change change node r).0).0, ok index)
]

-- The rest of `AddNodeInternal`.
unfoldable pub add_answer : (in_time : Bool) → Result ℕ → ChangeAnswer
add_answer in_time (err e) = failed_with (refused_with e)
add_answer in_time (ok index) = if in_time then change_made else failed_with timed_out

-- The rest of `RemoveNodeInternal`: the connections to the node are dropped.
unfoldable pub remove_answer : (in_time : Bool) → NodeId → Result ℕ → Pool → Pool × ChangeAnswer
unfolding remove_connection
remove_answer in_time node (err e) p = (p, failed_with (refused_with e))
remove_answer in_time node (ok index) p =
    if in_time then (remove_connection node p, change_made) else (p, failed_with timed_out)

-- `AddNode`, with what happens between the proposal and the answer.
unfoldable pub add_node : (in_time : Bool) → List Event → NodeId → Raft → Raft × ChangeAnswer
unfolding is_leader ask_change add_answer run
add_node in_time es node r =
    if is_leader r
    then (let (r1, index) = ask_change config_add_node node r in
        (run es r1, add_answer in_time index))
    else (r, failed_with answering_not_leader)

-- `RemoveNode`
unfoldable pub remove_node :
    (in_time : Bool) → List Event → NodeId → Raft → Pool → Raft × Pool × ChangeAnswer
unfolding is_leader ask_change remove_answer run
remove_node in_time es node r p =
    if is_leader r
    then (let (r1, index) = ask_change config_remove_node node r in
        let (p1, answer) = remove_answer in_time node index p in (run es r1, p1, answer))
    else (r, p, failed_with answering_not_leader)

-- `TransferLeadership`; a success stands for the request that is sent in the background.
unfoldable pub transfer_to : NodeId → Raft → ChangeAnswer
unfolding is_leader transfer_leadership
transfer_to target r =
    if is_leader r
    then (elim (transfer_leadership target r) [
      | err e ↦ failed_with (refused_with e)
      | ok _ ↦ change_made
    ])
    else failed_with answering_not_leader
