-- ===== src/Raft/Members/Pending.antt =====
-- What `AddNodeInternal` of internal/raft/raft.go leaves behind when it gives up.
use mimori.Prelude.{Bool, [], arith, ◌≡◌}
use mimori.Raft.Commit.{update_commit_index}
use mimori.Raft.Config.{
  append_entry, check_change, config_command, persist_log, propose_config_change,
}
use mimori.Raft.Machine.{run}
use mimori.Raft.Members.{add_answer, add_node, ask_change, failed_with, timed_out}
use mimori.Raft.Sender.{send_heartbeats}
use mimori.Raft.State.{NodeId, Raft, config_add_node}

-- When the addition of a node is reported as timed out, its entry is at the end of the log all the same.
pub add_node-pending :
    (in_time : Bool) (node : NodeId) (r : Raft)
    → (add_node in_time [] node r).1 ≡ failed_with timed_out
    → (add_node in_time [] node r).0.log
      ≡ (append_entry (config_command config_add_node node) r).log
unfolding add_node ask_change add_answer run propose_config_change check_change append_entry
    persist_log send_heartbeats update_commit_index
add_node-pending in_time node r late = ground arith
