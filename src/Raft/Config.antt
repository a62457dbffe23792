-- ===== src/Raft/Config.antt =====
-- Configuration management of internal/raft/raft.go: membership, and the entries that change it.
-- The clock is an argument where the code reads it.
pub mod Membership
use mimori.Prelude.{
  Bool, String, [], false, if◌then◌else◌, keep, length, none, not, put, remove, some, str_elem,
  str_eq, suc, true, zero, ℕ, ◌++◌, ◌+◌, ◌-◌, ◌/◌, ◌==◌, ◌∷◌,
}
use mimori.Raft.Disk.{save_all, save_meta}
use mimori.Raft.Log.{entry_at, last_log_index}
use mimori.Raft.State.{
  ConfigChangeType, LogEntry, NodeId, Payload, Raft, Result, cannot_remove_last_peer,
  cmd_config_change, config_add_node, config_remove_node, err, follower, is_leader_state,
  node_not_in_cluster, not_leader, ok, persist_failed,
}

-- `isKnownNode`
unfoldable pub is_known_node : Raft → NodeId → Bool
is_known_node r node =
    if str_eq node "" then false else (if str_eq node r.id then true else str_elem node r.peers)

-- `total/2 + 1` with `total := len(r.peers) + 1`
unfoldable pub majority : Raft → ℕ
majority r = (length r.peers + 1) / 2 + 1

-- `_ = r.meta.Save(r.term, r.votedFor, r.peers)`
unfoldable pub persist_meta : Raft → Raft
unfolding save_meta
persist_meta r = record r { disk = (save_meta r.disk r.term r.voted_for r.peers).0 }

-- The branch of `applyConfigChangeLocked` that removes this node.
unfoldable pub remove_self : ℕ → Raft → Raft
unfolding persist_meta
remove_self now r = persist_meta (record r {
  removed_from_cluster = true;
  state = follower;
  leader_id = "";
  voted_for = "";
  votes = 0;
  election_reset = now;
  peers = [];
  next_index = [];
  match_index = [];
})

unfoldable pub add_peer : NodeId → Raft → Raft
unfolding str_elem last_log_index put
add_peer node r = if str_elem node r.peers then r else record r {
  peers = r.peers ++ node ∷ [];
  next_index = put node (last_log_index r + 1) r.next_index;
  match_index = put node 0 r.match_index;
}

unfoldable pub remove_peer : NodeId → Raft → Raft
unfolding remove
remove_peer node r = record r {
  peers = keep (λ p. not (str_eq p node)) r.peers;
  next_index = remove node r.next_index;
  match_index = remove node r.match_index;
}

-- `applyConfigChangeLocked`
unfoldable pub apply_config_change : ℕ → Bool → NodeId → Raft → Raft
unfolding remove_self add_peer remove_peer persist_meta
apply_config_change now is_add node r =
    if str_eq node r.id
    then (if is_add then r else remove_self now r)
    else persist_meta (if is_add then add_peer node r else remove_peer node r)

-- `handleConfigChangeIfNeeded`: a payload that does not decode, or is another command, is left alone.
unfoldable pub handle_config_change_if_needed : ℕ → LogEntry → Raft → Raft
unfolding apply_config_change
handle_config_change_if_needed now entry r = elim entry.payload [
  | none ↦ r
  | some cmd ↦
      if cmd.op == cmd_config_change
      then apply_config_change now (str_eq cmd.type "add") cmd.node_id r
      else r
]

-- One round of the loop of `replayConfigChanges`: a missing entry is skipped.
unfoldable pub replay_one : ℕ → ℕ → Raft → Raft
unfolding entry_at handle_config_change_if_needed
replay_one now idx r = elim (entry_at r idx) [
  | none ↦ r
  | some entry ↦ handle_config_change_if_needed now entry r
]

-- `rounds` indices from `idx` on.
unfoldable pub replay_loop : ℕ → ℕ → ℕ → Raft → Raft
unfolding replay_one
replay_loop zero now idx r = r
replay_loop (suc rounds) now idx r = replay_loop rounds now (suc idx) (replay_one now idx r)

-- `replayConfigChanges`: every index from `logBaseIndex + 1` to the last one.
unfoldable pub replay_config_changes : ℕ → Raft → Raft
unfolding replay_loop last_log_index
replay_config_changes now r =
    replay_loop (last_log_index r - r.log_base_index) now (suc r.log_base_index) r

unfoldable pub change_name : ConfigChangeType → String
change_name config_add_node = "add"
change_name config_remove_node = "remove"

-- The guard of `proposeConfigChange` for a removal.
unfoldable pub check_change : ConfigChangeType → NodeId → Raft → Result (Unit {0})
unfolding str_elem
check_change config_add_node node r = ok tt
check_change config_remove_node node r =
    if length r.peers == 0
    then err cannot_remove_last_peer
    else (if str_elem node r.peers then ok tt else err node_not_in_cluster)

-- `append(r.log, LogEntry{Index: r.lastLogIndex()+1, Term: r.term, Data: data})`
unfoldable pub append_entry : Payload → Raft → Raft
unfolding last_log_index
append_entry cmd_data r = record r {
  log = r.log ++ record { index = last_log_index r + 1; term = r.term; payload = cmd_data } ∷ [];
}

-- `r.logStore.SaveAll(r.log)`; the Boolean is false where it returns an error.
unfoldable pub persist_log : Raft → Raft × Bool
unfolding save_all
persist_log r = let (disk', done) = save_all r.disk r.log in (record r { disk = disk' }, done)

unfoldable pub config_command : ConfigChangeType → NodeId → Payload
unfolding change_name
config_command change node = some (record {
  op = cmd_config_change;
  key = [];
  value = [];
  type = change_name change;
  node_id = node;
})

-- `proposeConfigChange`: the index of the entry.  When the log cannot be saved the error is returned and
-- the entry stays in the log in memory.
unfoldable pub propose_config_change : ConfigChangeType → NodeId → Raft → Raft × Result ℕ
unfolding last_log_index
propose_config_change change node r =
    if is_leader_state r.state
    then (elim (check_change change node r) [
      | err e ↦ (r, err e)
      | ok _ ↦
          let (r', saved) = persist_log (append_entry (config_command change node) r) in
          (r', if saved then ok (last_log_index r + 1) else err persist_failed)
    ])
    else (r, err not_leader)

-- `Propose`: the entry counts as proposed although the log could not be saved.
unfoldable pub propose : Payload → Raft → Raft × Result ℕ
unfolding append_entry persist_log last_log_index
propose cmd_data r =
    if is_leader_state r.state
    then ((persist_log (append_entry cmd_data r)).0, ok (last_log_index r + 1))
    else (r, err not_leader)
