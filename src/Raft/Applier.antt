-- ===== src/Raft/Applier.antt =====
-- The apply loop of internal/raft/raft.go: one round is two critical sections with the send on the
-- apply channel between them.
pub mod Order
use mimori.Prelude.{
  List, Option, [], if◌then◌else◌, leb, ltb, none, some, suc, zero, ℕ, ◌&&◌, ◌+◌, ◌-◌, ◌∷◌,
}
use mimori.Raft.Config.{handle_config_change_if_needed}
use mimori.Raft.Log.{entry_at}
use mimori.Raft.Snapshots.{create_snapshot}
use mimori.Raft.State.{Bytes, LogEntry, Raft, is_leader_state, snapshot_check_threshold}

-- The first section: the next committed entry, which is marked as applied.  `none` where nothing is
-- committed, or where the entry is missing and the loop waits.
unfoldable pub take_next : (now : ℕ) → Raft → Option (LogEntry × Raft)
unfolding entry_at
take_next now r =
    let next_index = r.last_applied + 1 in
    if ltb r.last_applied r.commit_index
    then (elim (entry_at r next_index) [
      | none ↦ none
      | some entry ↦
          some (
            entry,
            handle_config_change_if_needed now entry (record r { last_applied = next_index }),
          )
    ])
    else none

-- The second section, after the send: a leader takes a snapshot when enough entries are applied.
unfoldable pub snapshot_if_due : (now : ℕ) (state_bytes : Option Bytes) → Raft → Raft
unfolding create_snapshot
snapshot_if_due now state_bytes r =
    if is_leader_state r.state && leb snapshot_check_threshold (r.last_applied - r.log_base_index)
    then create_snapshot now state_bytes r
    else r

-- The inner loop of `runApplier` when nothing else runs between its sections: the entries that are sent,
-- and the node afterwards.  `fuel` bounds the rounds.
unfoldable pub apply_loop :
    (fuel now : ℕ) (state_bytes : Option Bytes) → Raft → List LogEntry × Raft
apply_loop zero now state_bytes r = ([], r)
apply_loop (suc fuel) now state_bytes r = elim (take_next now r) [
  | none ↦ ([], r)
  | some (entry, r') ↦
      let (sent, last) = apply_loop fuel now state_bytes (snapshot_if_due now state_bytes r') in
      (entry ∷ sent, last)
]
