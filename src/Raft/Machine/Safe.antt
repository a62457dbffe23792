-- ===== src/Raft/Machine/Safe.antt =====
-- Every event keeps a node well formed, given requests of the form that a leader sends.
use mimori.Prelude.{List, Option-cases, arith, inl, inr, length, suc, true, ℕ, ◌+◌, ◌<◌, ◌≡◌, ◌≤◌}
use mimori.Raft.Election.{adopt_term}
use mimori.Raft.Invariant.{
  WellFormed, entry_at-index, last_log_index-eq, last_log_index-of_Contiguous,
}
use mimori.Raft.Log.{entry_at}
use mimori.Raft.Log.Contiguous.{Contiguous}
use mimori.Raft.Machine.{
  Event, append_answered, apply_finished, apply_taken, change_proposed, command_proposed,
  entries_requested, heartbeats_sent, restarted, snapshot_forced, snapshot_requested,
  snapshot_returned, step, timeout_requested, timer_ticked, transfer_returned, vote_answered,
  vote_requested,
}
use mimori.Raft.Machine.Indices.{
  WellFormed-apply_taken, WellFormed-create_snapshot, WellFormed-install_snapshot,
  WellFormed-propose, WellFormed-propose_config_change, WellFormed-snapshot_if_due,
  WellFormed-update_commit_index,
}
use mimori.Raft.Machine.SameLog.{
  SameLog-adopt_term, SameLog-backtrack, SameLog-election_tick, SameLog-handle_vote_response,
  SameLog-record_success, SameLog-request_vote, SameLog-snapshot_sent, SameLog-timeout_now,
  SameLog-trans, SameLog-transfer_answered, WellFormed-SameLog,
}
use mimori.Raft.Replication.{
  AppendEntriesRequest, AppendEntriesResponse, accept_entries, append_entries, is_consistent,
}
use mimori.Raft.Replication.Accepted.{
  IsSequence, append_loop-Contiguous, applied-accept_entries, base-accept_entries,
  commit_index-accept_entries, log-accept_entries,
}
use mimori.Raft.Replication.Committed.{Agree, append_loop-SameUpTo}
use mimori.Raft.Sender.{backtrack, handle_append_response, record_success, send_heartbeats}
use mimori.Raft.State.{LogEntry, NodeId, Raft}

is_consistent-le :
    (prev prev_term : ℕ) (r : Raft)
    → WellFormed r
    → is_consistent prev prev_term r ≡ true
    → suc prev ≤ r.log_base_index + length r.log
unfolding is_consistent
is_consistent-le prev prev_term r v h = elim (Option-cases (entry_at r prev)) [
  | inl missing ↦ ground (arith, v.has_dummy)
  | inr (e, found) ↦ omega (arith, entry_at-index r prev e v found, last_log_index-eq r v)
]

WellFormed-accept_entries :
    (req : AppendEntriesRequest) (r : Raft)
    → IsSequence req
    → Agree r.log_base_index r.commit_index r.log req.entries
    → is_consistent req.prev_log_index req.prev_log_term r ≡ true
    → WellFormed r
    → WellFormed (accept_entries req.entries req.leader_commit r)
WellFormed-accept_entries req r seq agree consistent v =
    let s = accept_entries req.entries req.leader_commit r in
    let log_is = log-accept_entries req.entries req.leader_commit r in
    let base_is = base-accept_entries req.entries req.leader_commit r in
    let applied_is = applied-accept_entries req.entries req.leader_commit r in
    let moves = commit_index-accept_entries req.entries req.leader_commit r in
    let (h, n) =
      append_loop-Contiguous r.log_base_index (suc req.prev_log_index) req.entries r.log seq
        (is_consistent-le req.prev_log_index req.prev_log_term r v consistent) v.has_dummy
        v.contiguous in
    let (_, kept) =
      append_loop-SameUpTo r.log_base_index r.commit_index req.entries r.log v.committed_in_log
        agree in
    let h' : Contiguous s.log_base_index s.log = rw (base_is, log_is) h in
    let n' : 0 < length s.log = rw log_is n in
    let last = last_log_index-of_Contiguous s h' n' in
    let kept' : r.commit_index < s.log_base_index + length s.log = rw (base_is, log_is) kept in
    let covered : r.commit_index ≤ s.commit_index = omega arith in
    record {
      contiguous = h';
      has_dummy = n';
      base_applied = omega (arith, v.base_applied);
      applied_committed = omega (arith, v.applied_committed);
      committed_in_log = omega arith;
    }

WellFormed-append_entries :
    (now : ℕ) (req : AppendEntriesRequest) (r : Raft)
    → IsSequence req
    → Agree r.log_base_index r.commit_index r.log req.entries
    → WellFormed r
    → WellFormed (append_entries now req r).0
unfolding append_entries
WellFormed-append_entries now req r seq agree v =
    let r1 = adopt_term req.term r in
    let r2 = record r1 { leader_id = req.leader_id; election_reset = now } in
    let same = SameLog-trans r r1 r2 (SameLog-adopt_term req.term r) (ground arith) in
    let v2 = WellFormed-SameLog r r2 same v in
    let agree2 : Agree r2.log_base_index r2.commit_index r2.log req.entries =
      rw (same.log_base_index, same.commit_index, same.log) agree in
    ground (arith, v2, WellFormed-accept_entries req r2 seq agree2)

-- What the requests of a leader satisfy: entries that follow on from the previous one and agree with
-- what the node has committed, and a snapshot no older than the log's base.  A restart is another matter.
abbrev pub IsRegular : Event → Raft → Type 0
IsRegular (entries_requested now req) r =
    IsSequence req × Agree r.log_base_index r.commit_index r.log req.entries
IsRegular (snapshot_requested now req) r = r.log_base_index ≤ req.last_included_index
IsRegular (restarted now peers) r = ⊥
IsRegular _ r = Unit {0}

WellFormed-handle_append_response :
    (peer : NodeId) (prev : ℕ) (entries : List LogEntry) (resp : AppendEntriesResponse) (r : Raft)
    → WellFormed r
    → WellFormed (handle_append_response peer prev entries resp r).0
unfolding handle_append_response
WellFormed-handle_append_response peer prev entries resp r v =
    let r1 = record_success peer prev entries r in
    let v1 = WellFormed-SameLog r r1 (SameLog-record_success peer prev entries r) v in
    ground (
      arith,
      WellFormed-update_commit_index r1 v1,
      WellFormed-SameLog r (backtrack peer r).0 (SameLog-backtrack peer r) v,
    )

WellFormed-send_heartbeats : (r : Raft) → WellFormed r → WellFormed (send_heartbeats r).0
unfolding send_heartbeats
WellFormed-send_heartbeats r v = ground (arith, WellFormed-update_commit_index r v)

-- Every regular event keeps the log without gaps, the base at most the last applied index, and that at
-- most the commit index.
pub step-WellFormed : (e : Event) (r : Raft) → IsRegular e r → WellFormed r → WellFormed (step e r)
unfolding step
step-WellFormed (timer_ticked timeout now) r ok' v =
    WellFormed-SameLog r _ (SameLog-election_tick timeout now r) v
step-WellFormed (vote_answered resp) r ok' v =
    WellFormed-SameLog r _ (SameLog-handle_vote_response resp r) v
step-WellFormed (vote_requested now req) r ok' v =
    WellFormed-SameLog r _ (SameLog-request_vote now req r) v
step-WellFormed (entries_requested now req) r reg v =
    WellFormed-append_entries now req r reg.0 reg.1 v
step-WellFormed (snapshot_requested now req) r le v = WellFormed-install_snapshot now req r le v
step-WellFormed (timeout_requested now req) r ok' v =
    WellFormed-SameLog r _ (SameLog-timeout_now now req r) v
step-WellFormed (command_proposed cmd) r ok' v = WellFormed-propose cmd r v
step-WellFormed (change_proposed change node) r ok' v =
    WellFormed-propose_config_change change node r v
step-WellFormed (apply_taken now) r ok' v = WellFormed-apply_taken now r v
step-WellFormed (apply_finished now bytes) r ok' v = WellFormed-snapshot_if_due now bytes r v
step-WellFormed (snapshot_forced now bytes) r ok' v = WellFormed-create_snapshot now bytes r v
step-WellFormed heartbeats_sent r ok' v = WellFormed-send_heartbeats r v
step-WellFormed (append_answered peer prev entries resp) r ok' v =
    WellFormed-handle_append_response peer prev entries resp r v
step-WellFormed (snapshot_returned delivered p snap) r ok' v =
    WellFormed-SameLog r _ (SameLog-snapshot_sent delivered p snap r) v
step-WellFormed (transfer_returned target resp) r ok' v =
    WellFormed-SameLog r _ (SameLog-transfer_answered target resp r) v
step-WellFormed (restarted now peers) r no' v = absurd no'
