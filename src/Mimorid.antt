-- ===== src/Mimorid.antt =====
-- cmd/mimorid/main.go: the state machine loop that feeds the entries of the apply channel to the store;
-- its child Settings is about what the process reads of its environment.
pub mod Replicated
pub mod Settings
use mimori.Prelude.{
  List, Option, String, [], if◌then◌else◌, keep, none, not, some, str_eq, ◌==◌, ◌∷◌,
}
use mimori.Raft.State.{LogEntry, NodeId, cmd_delete, cmd_put}
use mimori.Store.{Pebble, kv_delete, kv_put}

module _ {DB WriteBatch : Type 0} (db : Pebble DB WriteBatch) where
  -- An error of the store is only logged: the entry then changes nothing.
  unfoldable pub or_logged : DB → Option DB → DB
  or_logged d none = d
  or_logged d (some d') = d'

  -- The body of the loop over `ApplyCh`: an entry that does not decode is skipped.
  unfoldable pub apply_entry : LogEntry → DB → DB
  unfolding or_logged kv_put kv_delete
  apply_entry e d = elim e.payload [
    | none ↦ d
    | some cmd ↦
        if cmd.op == cmd_put
        then or_logged d (kv_put db cmd.key cmd.value d)
        else (if cmd.op == cmd_delete then or_logged d (kv_delete db cmd.key d) else d)
  ]

  unfoldable pub apply_entries : List LogEntry → DB → DB
  unfolding apply_entry
  apply_entries [] d = d
  apply_entries (e ∷ es) d = apply_entries es (apply_entry e d)

-- `convertPeersToNodeIDs`.
unfoldable pub convert_peers_to_node_ids : List String → List NodeId
convert_peers_to_node_ids = keep (λ p. not (str_eq p ""))
