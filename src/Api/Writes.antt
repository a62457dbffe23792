-- ===== src/Api/Writes.antt =====
-- What `Put` and `Delete` of internal/api/server.go propose, and what the snapshot endpoint reports.
use mimori.Api.{
  DeleteRequest, PutRequest, after_applied, delete_key, encode_delete_cmd, encode_put_cmd,
  force_snapshot, propose_write, put_key, snapshot_created,
}
use mimori.Mimorid.Replicated.{assigned, change_by, removed}
use mimori.Prelude.{
  Option, [], arith, false, get_elem?-append_length, length, le→ltb, ltb, refl, some, true, ℕ, ◌++◌,
  ◌+◌, ◌-◌, ◌∷◌, ◌≡◌,
}
use mimori.Raft.Config.{append_entry, persist_log, propose}
use mimori.Raft.Invariant.{WellFormed, last_log_index-eq}
use mimori.Raft.Log.{entry_at, last_log_index}
use mimori.Raft.Query.{is_leader, status}
use mimori.Raft.Snapshots.{create_snapshot}
use mimori.Raft.State.{Bytes, LogEntry, Payload, Raft, is_leader_state, ok}
use mimori.Store.Laws.{bytes_eq}

abbrev pub proposed_entry : Payload → Raft → LogEntry
unfolding last_log_index
proposed_entry cmd_data r = record {
  index = last_log_index r + 1;
  term = r.term;
  payload = cmd_data;
}

is_leader-state : (r : Raft) → is_leader r ≡ true → is_leader_state r.state ≡ true
unfolding is_leader
is_leader-state r h = ground arith

propose-leader :
    (cmd_data : Payload) (r : Raft)
    → is_leader_state r.state ≡ true
    → propose cmd_data r ≡ ((persist_log (append_entry cmd_data r)).0, ok (last_log_index r + 1))
unfolding propose
propose-leader cmd_data r leads = rw leads refl

-- A leader's proposal, with its entry at the end of the log.
pub record Proposed (cmd_data : Payload) (r s : Raft) : Type 0 where
  log : s.log ≡ r.log ++ proposed_entry cmd_data r ∷ []
  log_base_index : s.log_base_index ≡ r.log_base_index

pub propose_write-leader :
    (cmd_data : Payload) (r : Raft)
    → is_leader r ≡ true
    → Proposed cmd_data r (propose_write cmd_data r).0
      × ((propose_write cmd_data r).1 ≡ after_applied (last_log_index r + 1))
unfolding propose_write append_entry persist_log
propose_write-leader cmd_data r leads =
    let proposed = propose-leader cmd_data r (is_leader-state r leads) in
    simp (leads, proposed) (record { log = refl; log_base_index = refl }, refl)

entry_at-Proposed :
    (cmd_data : Payload) (r s : Raft)
    → WellFormed r
    → Proposed cmd_data r s
    → entry_at s (last_log_index r + 1) ≡ some (proposed_entry cmd_data r)
unfolding entry_at
entry_at-Proposed cmd_data r s v p =
    let offset : (last_log_index r + 1) - r.log_base_index ≡ length r.log =
      omega (arith, last_log_index-eq r v) in
    let above : ltb (last_log_index r + 1) r.log_base_index ≡ false =
      le→ltb (last_log_index r + 1) r.log_base_index (omega (arith, last_log_index-eq r v)) in
    rw (p.log_base_index, above, p.log, offset)
      (get_elem?-append_length r.log (proposed_entry cmd_data r) [])

bytes_eq_refl : (xs : Bytes) → bytes_eq xs xs ≡ true
bytes_eq_refl [] = refl
bytes_eq_refl (x ∷ xs) = ground (arith, bytes_eq_refl xs)

-- On a well-formed leader a put answers when the index behind the last one is applied, and the log then has
-- at that index an entry of the leader's term which the state machine reads as the assignment of the value
-- to the key.
pub put_key-proposes :
    (req : PutRequest) (r : Raft)
    → WellFormed r
    → is_leader r ≡ true
    → (e : LogEntry) × ((put_key req r).1 ≡ after_applied (last_log_index r + 1))
      × (entry_at (put_key req r).0 (last_log_index r + 1) ≡ some e)
      × (e.term ≡ r.term)
      × (change_by req.key e ≡ assigned req.value)
unfolding put_key encode_put_cmd
put_key-proposes req r v leads =
    let cmd_data = encode_put_cmd req.key req.value in
    let (there, answer) = propose_write-leader cmd_data r leads in
    (
      proposed_entry cmd_data r,
      answer,
      entry_at-Proposed cmd_data r _ v there,
      refl,
      rw (bytes_eq_refl req.key) refl,
    )

-- On a well-formed leader a delete answers when the index behind the last one is applied, and the log then
-- has at that index an entry of the leader's term which the state machine reads as the removal of the key.
pub delete_key-proposes :
    (req : DeleteRequest) (r : Raft)
    → WellFormed r
    → is_leader r ≡ true
    → (e : LogEntry) × ((delete_key req r).1 ≡ after_applied (last_log_index r + 1))
      × (entry_at (delete_key req r).0 (last_log_index r + 1) ≡ some e)
      × (e.term ≡ r.term)
      × (change_by req.key e ≡ removed)
unfolding delete_key encode_delete_cmd
delete_key-proposes req r v leads =
    let cmd_data = encode_delete_cmd req.key in
    let (there, answer) = propose_write-leader cmd_data r leads in
    (
      proposed_entry cmd_data r,
      answer,
      entry_at-Proposed cmd_data r _ v there,
      refl,
      rw (bytes_eq_refl req.key) refl,
    )

-- The snapshot endpoint reports a snapshot on a leader for which no snapshotter is registered, and the node
-- is the same as before.
pub force_snapshot-unregistered :
    (now : ℕ) (bytes : Option Bytes) (r : Raft)
    → is_leader r ≡ true
    → r.snapshotter ≡ false
    → force_snapshot true now bytes r ≡ (r, snapshot_created (status r))
unfolding force_snapshot create_snapshot
force_snapshot-unregistered now bytes r leads unregistered =
    rw (leads, unregistered, create_snapshot) refl
