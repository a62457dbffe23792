-- ===== src/Raft/Sender.antt =====
-- internal/raft/rpc_client.go: what a leader sends, and what it does with the answers.
pub mod Progress
pub mod Sent
pub mod Delivered
use mimori.Prelude.{
  Bool, List, [], false, find_int, get_last?, if◌then◌else◌, int32, leb, length, ltb, none, put,
  some, str_elem, str_eq, suc, true, zero, ℕ, ◌+◌, ◌-◌, ◌==◌, ◌∷◌,
}
use mimori.Raft.Commit.{update_commit_index}
use mimori.Raft.Config.{persist_meta}
use mimori.Raft.Log.{entry_at, last_log_index}
use mimori.Raft.Replication.{AppendEntriesRequest, AppendEntriesResponse}
use mimori.Raft.State.{LogEntry, NodeId, Raft, follower}

-- `nextIdx := r.nextIndex[p]`, where 0 stands for the first index past the base.
unfoldable pub next_for : NodeId → Raft → ℕ
unfolding find_int
next_for p r =
    let next_idx = find_int p r.next_index in
    if next_idx == 0 then r.log_base_index + 1 else next_idx

-- The entry on the wire: `Index: int32(e.Index), Term: int32(e.Term)`.
unfoldable pub wire_entry : LogEntry → LogEntry
unfolding int32
wire_entry e = record { index = int32 e.index; term = int32 e.term; payload = e.payload }

-- `for idx := nextIdx; idx <= lastIndex; idx++`: `rounds` indices from `idx` on.
unfoldable pub collect_entries : ℕ → ℕ → Raft → List LogEntry
unfolding entry_at wire_entry
collect_entries zero idx r = []
collect_entries (suc rounds) idx r =
    let rest = collect_entries rounds (suc idx) r in
    elim (entry_at r idx) [ none ↦ rest | some e ↦ wire_entry e ∷ rest ]

-- What one round of `sendHeartbeats` starts for a peer.
pub data Sending : Type 0 where
  send_snapshot : Sending
  send_batches : (prev_log_index prev_log_term : ℕ) → List LogEntry → (fresh_commit : ℕ) → Sending

unfoldable pub is_behind_snapshot : ℕ → Raft → Bool
is_behind_snapshot next_idx r = elim r.snapshot [
  | none ↦ false
  | some snap ↦ leb next_idx snap.last_included_index
]

unfoldable pub term_at : ℕ → Raft → ℕ
unfolding entry_at
term_at idx r = elim (entry_at r idx) [ none ↦ 0 | some e ↦ e.term ]

unfoldable pub heartbeat_to : NodeId → Raft → Sending
unfolding next_for is_behind_snapshot term_at collect_entries last_log_index
heartbeat_to p r =
    let next_idx = next_for p r in
    if is_behind_snapshot next_idx r
    then send_snapshot
    else send_batches (next_idx - 1) (term_at (next_idx - 1) r)
        (collect_entries (suc (last_log_index r) - next_idx) next_idx r) r.commit_index

-- The loop of `sendHeartbeats`: a peer with an empty name is skipped.
unfoldable pub heartbeats_to : List NodeId → Raft → List (NodeId × Sending)
unfolding heartbeat_to
heartbeats_to [] r = []
heartbeats_to (p ∷ ps) r =
    let rest = heartbeats_to ps r in if str_eq p "" then rest else (p, heartbeat_to p r) ∷ rest

-- `sendHeartbeats`: a single node commits at once.
unfoldable pub send_heartbeats : Raft → Raft × List (NodeId × Sending)
unfolding heartbeats_to update_commit_index
send_heartbeats r =
    (if length r.peers == 0 then update_commit_index r else r, heartbeats_to r.peers r)

-- The request of `sendAppendEntriesBatch`.
unfoldable pub batch_request :
    (term : ℕ) (leader_id : NodeId) (prev_log_index prev_log_term : ℕ)
    → List LogEntry
    → (fresh_commit : ℕ) → AppendEntriesRequest
unfolding int32
batch_request term leader_id prev_log_index prev_log_term entries fresh_commit = record {
  term = int32 term;
  leader_id = leader_id;
  prev_log_index = int32 prev_log_index;
  prev_log_term = int32 prev_log_term;
  entries = entries;
  leader_commit = int32 fresh_commit;
}

-- The rejection branch: the next index goes back by one, but not to the base.  The Boolean says whether
-- a snapshot is sent instead.
unfoldable pub backtrack : NodeId → Raft → Raft × Bool
unfolding is_behind_snapshot find_int put
backtrack peer r =
    let next_idx = find_int peer r.next_index in
    if is_behind_snapshot next_idx r
    then (r, true)
    else (if ltb (r.log_base_index + 1) next_idx
        then (record r { next_index = put peer (next_idx - 1) r.next_index }, false)
        else (r, false))

unfoldable pub set_progress : NodeId → ℕ → Raft → Raft
unfolding put
set_progress peer matched r = record r {
  match_index = put peer matched r.match_index;
  next_index = put peer (matched + 1) r.next_index;
}

-- "Successful replication": the progress of the peer.
unfoldable pub record_success : NodeId → ℕ → List LogEntry → Raft → Raft
unfolding set_progress
record_success peer prev_log_index entries r = elim (get_last? entries) [
  | some e ↦ set_progress peer e.index r
  | none ↦ if leb r.log_base_index prev_log_index then set_progress peer prev_log_index r else r
]

-- The part of `sendAppendEntriesBatch` that handles a response; the Boolean is its result.  Whether a
-- snapshot is to be sent is `(backtrack peer r).1` in the rejection branch.
unfoldable pub handle_append_response :
    NodeId → (prev_log_index : ℕ) → List LogEntry → AppendEntriesResponse → Raft → Raft × Bool
unfolding persist_meta backtrack str_elem record_success update_commit_index
handle_append_response peer prev_log_index entries resp r =
    if ltb r.term resp.term
    then (persist_meta (record r { term = resp.term; state = follower; voted_for = "" }), false)
    else (if resp.success
        then (if str_elem peer r.peers
            then (update_commit_index (record_success peer prev_log_index entries r), true)
            else (r, false))
        else ((backtrack peer r).0, false))
