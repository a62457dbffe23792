-- ===== src/Raft/Machine/Votes.antt =====
-- One vote for each term, over any events, restarts included.
use mimori.Prelude.{List, arith, false, suc, sym, zero, ℕ, ◌+◌, ◌-◌, ◌∙◌, ◌≡◌, ◌≢◌}
use mimori.Raft.Commit.{update_commit_index}
use mimori.Raft.Config.{
  handle_config_change_if_needed, replay_config_changes, replay_loop, replay_one,
}
use mimori.Raft.Disk.{load_meta}
use mimori.Raft.Election.{TimeoutNowResponse, adopt_term, track_peers}
use mimori.Raft.Init.{boot, new, start_from_snapshot}
use mimori.Raft.Log.{last_log_index}
use mimori.Raft.Machine.{
  Event, append_answered, apply_finished, apply_taken, apply_taken_by, change_proposed,
  command_proposed, entries_requested, heartbeats_sent, restarted, snapshot_forced,
  snapshot_requested, snapshot_returned, step, timeout_requested, timer_ticked, transfer_returned,
  vote_answered, vote_requested,
}
use mimori.Raft.Machine.Ballot.{
  SameBallot, SameBallot-accept_entries, SameBallot-backtrack, SameBallot-create_snapshot,
  SameBallot-install, SameBallot-propose, SameBallot-propose_config_change,
  SameBallot-record_success, SameBallot-send_heartbeats, SameBallot-snapshot_if_due,
  SameBallot-snapshot_sent, SameBallot-start_from_snapshot, SameBallot-track_peers,
  SameBallot-trans, SameBallot-update_commit_index,
}
use mimori.Raft.Machine.Remember.{
  Remembers, Remembers-adopt_term, Remembers-election_tick, Remembers-handle_vote_response,
  Remembers-persist_meta, Remembers-request_vote, Remembers-same, Remembers-timeout_now,
}
use mimori.Raft.Replication.{
  AppendEntriesRequest, AppendEntriesResponse, accept_entries, append_entries,
}
use mimori.Raft.Sender.{backtrack, handle_append_response, record_success}
use mimori.Raft.Snapshots.{InstallSnapshotRequest, install, install_snapshot}
use mimori.Raft.State.{LogEntry, NodeId, Raft, follower}
use mimori.Raft.Transfer.{transfer_answered}

module _ (t : ℕ) (c : NodeId) where
  Remembers-append_entries :
      (now : ℕ) (req : AppendEntriesRequest) (r : Raft)
      → Remembers t c r
      → Remembers t c (append_entries now req r).0
  unfolding append_entries
  Remembers-append_entries now req r m =
      let r1 = adopt_term req.term r in
      let r2 = record r1 { leader_id = req.leader_id; election_reset = now } in
      let heard : Remembers t c r2 =
        Remembers-same t c r1 r2 (ground arith) (Remembers-adopt_term t c req.term r m) in
      ground (
        arith,
        Remembers-same t c r2 (accept_entries req.entries req.leader_commit r2)
            (SameBallot-accept_entries req.entries req.leader_commit r2),
      )

  Remembers-install_snapshot :
      (now : ℕ) (req : InstallSnapshotRequest) (r : Raft)
      → Remembers t c r
      → Remembers t c (install_snapshot now req r).0
  unfolding install_snapshot
  Remembers-install_snapshot now req r m =
      let r1 = adopt_term req.term r in
      ground (
        arith,
        Remembers-same t c r1 (install now req r1) (SameBallot-install now req r1)
            (Remembers-adopt_term t c req.term r m),
      )

  Remembers-handle_append_response :
      (peer : NodeId) (prev : ℕ) (entries : List LogEntry) (resp : AppendEntriesResponse) (r : Raft)
      → Remembers t c r
      → Remembers t c (handle_append_response peer prev entries resp r).0
  unfolding handle_append_response
  Remembers-handle_append_response peer prev entries resp r m =
      let r1 = record_success peer prev entries r in
      let stepped_down = record r { term = resp.term; state = follower; voted_for = "" } in
      ground (
        arith,
        Remembers-persist_meta t c stepped_down,
        Remembers-same t c r r1 (SameBallot-record_success peer prev entries r),
        Remembers-same t c r1 (update_commit_index r1) (SameBallot-update_commit_index r1),
        Remembers-same t c r (backtrack peer r).0 (SameBallot-backtrack peer r),
      )

  Remembers-transfer_answered :
      (target : NodeId) (resp : TimeoutNowResponse) (r : Raft)
      → Remembers t c r
      → Remembers t c (transfer_answered target resp r)
  unfolding transfer_answered load_meta
  Remembers-transfer_answered target resp r m = ground arith

  -- A configuration change that does not remove this node.
  Remembers-handle_config_change :
      (now : ℕ) (entry : LogEntry) (r : Raft)
      → (handle_config_change_if_needed now entry r).removed_from_cluster ≡ false
      → Remembers t c r
      → Remembers t c (handle_config_change_if_needed now entry r)
  unfolding handle_config_change_if_needed load_meta
  Remembers-handle_config_change now entry r here m = ground arith

  Remembers-apply_taken :
      (now : ℕ) (r : Raft)
      → (apply_taken_by now r).removed_from_cluster ≡ false
      → Remembers t c r
      → Remembers t c (apply_taken_by now r)
  unfolding apply_taken_by handle_config_change_if_needed load_meta
  Remembers-apply_taken now r here m = ground arith

  replay_one-member :
      (now idx : ℕ) (r : Raft)
      → (replay_one now idx r).removed_from_cluster ≡ false
      → (r.removed_from_cluster ≡ false) × (Remembers t c r → Remembers t c (replay_one now idx r))
  unfolding replay_one load_meta
  replay_one-member now idx r here = ground arith

  replay_loop-member :
      (rounds now idx : ℕ) (r : Raft)
      → (replay_loop rounds now idx r).removed_from_cluster ≡ false
      → (r.removed_from_cluster ≡ false)
        × (Remembers t c r → Remembers t c (replay_loop rounds now idx r))
  unfolding replay_loop
  replay_loop-member zero now idx r here = (here, λ m. m)
  replay_loop-member (suc rounds) now idx r here =
      let (later, keeps) = replay_loop-member rounds now (suc idx) (replay_one now idx r) here in
      let (before, keeps_one) = replay_one-member now idx r later in
      (before, λ m. keeps (keeps_one m))

  Remembers-boot :
      (now : ℕ) (id : NodeId) (peers : List NodeId) (r : Raft)
      → Remembers t c r
      → Remembers t c (boot now id peers r.disk)
  unfolding boot
  Remembers-boot now id peers r m = record {
    writable = m.writable;
    in_memory = m.on_disk;
    on_disk = m.on_disk;
  }

  Remembers-new :
      (now : ℕ) (id : NodeId) (peers : List NodeId) (r : Raft)
      → (new now id peers r.disk).removed_from_cluster ≡ false
      → Remembers t c r
      → Remembers t c (new now id peers r.disk)
  unfolding new
  Remembers-new now id peers r here m =
      let r0 = boot now id peers r.disk in
      let r1 = replay_config_changes now r0 in
      let r2 = track_peers r1.peers (last_log_index r1 + 1) 0 r1 in
      let to_r2 : SameBallot r1 r2 = SameBallot-track_peers r1.peers (last_log_index r1 + 1) 0 r1 in
      let to_r3 : SameBallot r2 (start_from_snapshot r2) = SameBallot-start_from_snapshot r2 in
      let to_end = SameBallot-trans r1 r2 (start_from_snapshot r2) to_r2 to_r3 in
      let (_, keeps) =
        replay_loop-member (last_log_index r0 - r0.log_base_index) now (suc r0.log_base_index) r0
          (sym to_end.removed ∙ here) in
      Remembers-same t c r1 (start_from_snapshot r2) to_end
        (keeps (Remembers-boot now id peers r m))

  -- Every event after which the node is a member keeps what the node remembers.
  pub Remembers-step :
      (e : Event) (r : Raft)
      → c ≢ ""
      → (step e r).removed_from_cluster ≡ false
      → Remembers t c r
      → Remembers t c (step e r)
  unfolding step
  Remembers-step (timer_ticked timeout now) r named here m =
      Remembers-election_tick t c timeout now r m
  Remembers-step (vote_answered resp) r named here m = Remembers-handle_vote_response t c resp r m
  Remembers-step (vote_requested now req) r named here m =
      Remembers-request_vote t c now req r named m
  Remembers-step (entries_requested now req) r named here m = Remembers-append_entries now req r m
  Remembers-step (snapshot_requested now req) r named here m =
      Remembers-install_snapshot now req r m
  Remembers-step (timeout_requested now req) r named here m = Remembers-timeout_now t c now req r m
  Remembers-step (command_proposed cmd) r named here m =
      Remembers-same t c r _ (SameBallot-propose cmd r) m
  Remembers-step (change_proposed change node) r named here m =
      Remembers-same t c r _ (SameBallot-propose_config_change change node r) m
  Remembers-step (apply_taken now) r named here m = Remembers-apply_taken now r here m
  Remembers-step (apply_finished now bytes) r named here m =
      Remembers-same t c r _ (SameBallot-snapshot_if_due now bytes r) m
  Remembers-step (snapshot_forced now bytes) r named here m =
      Remembers-same t c r _ (SameBallot-create_snapshot now bytes r) m
  Remembers-step heartbeats_sent r named here m =
      Remembers-same t c r _ (SameBallot-send_heartbeats r) m
  Remembers-step (append_answered peer prev entries resp) r named here m =
      Remembers-handle_append_response peer prev entries resp r m
  Remembers-step (snapshot_returned delivered p snap) r named here m =
      Remembers-same t c r _ (SameBallot-snapshot_sent delivered p snap r) m
  Remembers-step (transfer_returned target resp) r named here m =
      Remembers-transfer_answered target resp r m
  Remembers-step (restarted now peers) r named here m = Remembers-new now r.id peers r here m
