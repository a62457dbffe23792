-- ===== src/Raft/Log.antt =====
-- The log helpers of internal/raft/raft.go.  The log starts with a dummy entry at `log_base_index`.
pub mod Contiguous
use mimori.Prelude.{
  List, Option, drop, get_elem?, get_last?, if◌then◌else◌, keep, ltb, none, some, ℕ, ◌-◌,
}
use mimori.Raft.State.{LogEntry, Raft}

unfoldable pub last_log_index : Raft → ℕ
last_log_index r = elim (get_last? r.log) [ none ↦ r.log_base_index | some e ↦ e.index ]

unfoldable pub last_log_term : Raft → ℕ
last_log_term r = elim (get_last? r.log) [ none ↦ 0 | some e ↦ e.term ]

-- `get_elem?` is `none` past the end, which is the test `offset >= len(r.log)`.
unfoldable pub entry_at : Raft → ℕ → Option LogEntry
entry_at r idx = if ltb idx r.log_base_index then none else get_elem? r.log (idx - r.log_base_index)

-- `drop` past the end is empty, which is the test `start >= len(r.log)`.
unfoldable pub slice_from : Raft → ℕ → List LogEntry
slice_from r from =
    let from' : ℕ = if ltb from r.log_base_index then r.log_base_index else from in
    drop (from' - r.log_base_index) r.log

-- The loop that keeps the entries past a snapshot: `if e.Index > last { newLog = append(newLog, e) }`.
unfoldable pub entries_after : ℕ → List LogEntry → List LogEntry
entries_after last = keep (λ e. ltb last e.index)
