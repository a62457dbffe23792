-- ===== src/Raft/Replication.antt =====
-- `AppendEntries` of internal/raft/rpc.go: what a follower does with a leader's entries.
pub mod Splice
pub mod Gap
pub mod Committed
pub mod Accepted
use mimori.Prelude.{
  Bool, List, [], false, get_elem?, if◌then◌else◌, int32, length, ltb, none, some, take, true, ℕ,
  ◌++◌, ◌-◌, ◌==◌, ◌∷◌,
}
use mimori.Raft.Config.{is_known_node, persist_log}
use mimori.Raft.Election.{adopt_term}
use mimori.Raft.Log.{entry_at, last_log_index}
use mimori.Raft.State.{LogEntry, NodeId, Raft}

pub record AppendEntriesRequest : Type 0 where
  pub term : ℕ
  pub leader_id : NodeId
  pub prev_log_index : ℕ
  pub prev_log_term : ℕ
  pub entries : List LogEntry
  pub leader_commit : ℕ

pub record AppendEntriesResponse : Type 0 where
  pub term : ℕ
  pub success : Bool

-- The test `r.log[offset].Term != int(e.Term)` at an offset inside the log.
unfoldable pub same_term_at : List LogEntry → ℕ → ℕ → Bool
same_term_at log offset term = elim (get_elem? log offset) [
  | none ↦ false
  | some x ↦ x.term == term
]

-- One round of "5. Append or overwrite entries": an entry below the base or already there is skipped,
-- a conflict cuts the log, and the entry is appended.
unfoldable pub append_one : (base : ℕ) → LogEntry → List LogEntry → List LogEntry
unfolding same_term_at
append_one base e log =
    let offset = e.index - base in
    if ltb e.index base
    then log
    else (if ltb offset (length log)
        then (if same_term_at log offset e.term then log else take offset log ++ e ∷ [])
        else log ++ e ∷ [])

unfoldable pub append_loop : (base : ℕ) → List LogEntry → List LogEntry → List LogEntry
unfolding append_one
append_loop base [] log = log
append_loop base (e ∷ es) log = append_loop base es (append_one base e log)

-- "4. Log consistency check"
unfoldable pub is_consistent : (prev_log_index prev_log_term : ℕ) → Raft → Bool
unfolding entry_at
is_consistent prev_log_index prev_log_term r =
    if ltb 0 prev_log_index
    then (if ltb prev_log_index r.log_base_index then false else (elim (entry_at r prev_log_index) [
      | none ↦ false
      | some entry ↦ entry.term == prev_log_term
    ]))
    else true

-- "7. Advance commit index"
unfoldable pub advance_commit : ℕ → Raft → Raft
unfolding last_log_index
advance_commit leader_commit r =
    if ltb r.commit_index leader_commit
    then record r {
      commit_index =
          if ltb leader_commit (last_log_index r) then leader_commit else last_log_index r;
    }
    else r

-- Steps 5 to 7: the log is saved, and an error of the save is only logged.
unfoldable pub accept_entries : List LogEntry → ℕ → Raft → Raft
unfolding append_loop persist_log advance_commit
accept_entries entries leader_commit r =
    let appended = record r { log = append_loop r.log_base_index entries r.log } in
    advance_commit leader_commit (persist_log appended).0

-- `AppendEntries`
unfoldable pub append_entries : ℕ → AppendEntriesRequest → Raft → Raft × AppendEntriesResponse
unfolding is_known_node adopt_term is_consistent accept_entries int32
append_entries now req r =
    let refused : AppendEntriesResponse = record { term = int32 r.term; success = false } in
    let accepted : AppendEntriesResponse = record { term = int32 r.term; success = true } in
    let r1 = adopt_term req.term r in
    let r2 = record r1 { leader_id = req.leader_id; election_reset = now } in
    if is_known_node r req.leader_id
    then (if ltb req.term r.term
        then (r, refused)
        else (if is_consistent req.prev_log_index req.prev_log_term r2
            then (accept_entries req.entries req.leader_commit r2, accepted)
            else (r2, refused)))
    else (r, refused)
