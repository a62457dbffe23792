-- ===== src/Raft/Machine/Durable.antt =====
-- The remaining events, and the restart, keep the files in step with memory.
use mimori.Prelude.{List, arith, ℕ, ◌∙◌}
use mimori.Raft.Config.{persist_log}
use mimori.Raft.Election.{adopt_term}
use mimori.Raft.Invariant.{WellFormed}
use mimori.Raft.Machine.{
  Event, append_answered, apply_finished, apply_taken, change_proposed, command_proposed,
  entries_requested, heartbeats_sent, restarted, snapshot_forced, snapshot_requested,
  snapshot_returned, step, timeout_requested, timer_ticked, transfer_returned, vote_answered,
  vote_requested,
}
use mimori.Raft.Machine.Files.{
  InSync, InSync-SameFiles, SameFiles, SameFiles-adopt_term, SameFiles-apply_taken,
  SameFiles-election_tick, SameFiles-handle_append_response, SameFiles-handle_vote_response,
  SameFiles-request_vote, SameFiles-send_heartbeats, SameFiles-snapshot_sent, SameFiles-timeout_now,
  SameFiles-trans, SameFiles-transfer_answered,
}
use mimori.Raft.Machine.Safe.{IsRegular}
use mimori.Raft.Machine.SameLog.{SameLog-adopt_term, SameLog-trans, WellFormed-SameLog}
use mimori.Raft.Machine.Synced.{
  InSync-create_snapshot, InSync-install_snapshot, InSync-persist_log, InSync-propose,
  InSync-propose_config_change, InSync-snapshot_if_due,
}
use mimori.Raft.Replication.{
  AppendEntriesRequest, accept_entries, advance_commit, append_entries, append_loop,
}
use mimori.Raft.Replication.Committed.{Agree, append_loop-SameUpTo}
use mimori.Raft.State.{LogEntry, Raft}

SameFiles-advance_commit :
    (leader_commit : ℕ) (r : Raft) → SameFiles r (advance_commit leader_commit r)
unfolding advance_commit
SameFiles-advance_commit leader_commit r = ground arith

InSync-accept_entries :
    (entries : List LogEntry) (leader_commit : ℕ) (r : Raft)
    → Agree r.log_base_index r.commit_index r.log entries
    → WellFormed r
    → InSync r
    → InSync (accept_entries entries leader_commit r)
unfolding accept_entries
InSync-accept_entries entries leader_commit r agree w v =
    let appended = record r { log = append_loop r.log_base_index entries r.log } in
    let (same, inside) =
      append_loop-SameUpTo r.log_base_index r.commit_index entries r.log w.committed_in_log agree in
    let first_is = same 0 (omega (arith, w.base_applied, w.applied_committed)) ∙ v.first_is in
    InSync-SameFiles (persist_log appended).0 _
      (SameFiles-advance_commit leader_commit (persist_log appended).0)
      (InSync-persist_log appended v.log_writable v.snapshot_writable v.snapshot_saved v.first
        first_is v.anchored)

InSync-append_entries :
    (now : ℕ) (req : AppendEntriesRequest) (r : Raft)
    → Agree r.log_base_index r.commit_index r.log req.entries
    → WellFormed r
    → InSync r
    → InSync (append_entries now req r).0
unfolding append_entries
InSync-append_entries now req r agree w v =
    let r1 = adopt_term req.term r in
    let r2 = record r1 { leader_id = req.leader_id; election_reset = now } in
    let same = SameLog-trans r r1 r2 (SameLog-adopt_term req.term r) (ground arith) in
    let w2 = WellFormed-SameLog r r2 same w in
    let files = SameFiles-trans r r1 r2 (SameFiles-adopt_term req.term r) (ground arith) in
    let v2 = InSync-SameFiles r r2 files v in
    let agree2 : Agree r2.log_base_index r2.commit_index r2.log req.entries =
      rw (same.log_base_index, same.commit_index, same.log) agree in
    ground (arith, v, v2, InSync-accept_entries req.entries req.leader_commit r2 agree2 w2 v2)

pub step-InSync :
    (e : Event) (r : Raft) → IsRegular e r → WellFormed r → InSync r → InSync (step e r)
unfolding step
step-InSync (timer_ticked timeout now) r ok' w v =
    InSync-SameFiles r _ (SameFiles-election_tick timeout now r) v
step-InSync (vote_answered resp) r ok' w v =
    InSync-SameFiles r _ (SameFiles-handle_vote_response resp r) v
step-InSync (vote_requested now req) r ok' w v =
    InSync-SameFiles r _ (SameFiles-request_vote now req r) v
step-InSync (entries_requested now req) r reg w v = InSync-append_entries now req r reg.1 w v
step-InSync (snapshot_requested now req) r le w v = InSync-install_snapshot now req r v
step-InSync (timeout_requested now req) r ok' w v =
    InSync-SameFiles r _ (SameFiles-timeout_now now req r) v
step-InSync (command_proposed cmd) r ok' w v = InSync-propose cmd r v
step-InSync (change_proposed change node) r ok' w v = InSync-propose_config_change change node r v
step-InSync (apply_taken now) r ok' w v = InSync-SameFiles r _ (SameFiles-apply_taken now r) v
step-InSync (apply_finished now bytes) r ok' w v = InSync-snapshot_if_due now bytes r v
step-InSync (snapshot_forced now bytes) r ok' w v = InSync-create_snapshot now bytes r v
step-InSync heartbeats_sent r ok' w v = InSync-SameFiles r _ (SameFiles-send_heartbeats r) v
step-InSync (append_answered peer prev entries resp) r ok' w v =
    InSync-SameFiles r _ (SameFiles-handle_append_response peer prev entries resp r) v
step-InSync (snapshot_returned delivered p snap) r ok' w v =
    InSync-SameFiles r _ (SameFiles-snapshot_sent delivered p snap r) v
step-InSync (transfer_returned target resp) r ok' w v =
    InSync-SameFiles r _ (SameFiles-transfer_answered target resp r) v
step-InSync (restarted now peers) r no' w v = absurd no'
