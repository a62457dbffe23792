-- ===== src/Raft/Machine/Files.antt =====
-- The files of a node hold what a restart needs.
use mimori.Prelude.{
  Bool, List, Option, [], arith, get_elem?, none, put, refl, some, sym, true, ℕ, ◌+◌, ◌∙◌, ◌∷◌, ◌≡◌,
}
use mimori.Raft.Commit.{update_commit_index}
use mimori.Raft.Config.{handle_config_change_if_needed}
use mimori.Raft.Disk.{load_log}
use mimori.Raft.Election.{
  RequestVoteRequest, RequestVoteResponse, TimeoutNowRequest, TimeoutNowResponse, adopt_term,
  become_leader, campaign, election_tick, handle_vote_response, request_vote, start_election,
  timeout_now, track_peers,
}
use mimori.Raft.Init.{boot_entries}
use mimori.Raft.Log.{last_log_index}
use mimori.Raft.Machine.{apply_taken_by}
use mimori.Raft.Replication.{AppendEntriesResponse}
use mimori.Raft.Sender.{
  backtrack, handle_append_response, record_success, send_heartbeats, set_progress,
}
use mimori.Raft.Snapshots.{snapshot_sent}
use mimori.Raft.State.{Disk, LogEntry, NodeId, Raft, Snapshot, leader}
use mimori.Raft.Transfer.{transfer_answered}

-- The log file as `New` reads it.
abbrev pub saved_log : Disk → List LogEntry
saved_log d = (boot_entries d).0 ∷ (boot_entries d).1

-- The first entry of the log stands for the snapshot, or for the start of the log.
abbrev pub Anchors : Option Snapshot → ℕ → LogEntry → Type 0
Anchors none base e = (base ≡ 0) × (e.index ≡ 0)
Anchors (some snap) base e =
    (base ≡ snap.last_included_index)
    × (e.index ≡ snap.last_included_index)
    × (e.term ≡ snap.last_included_term)

-- Log and snapshot are on disk as they are in memory, and writes go through.
pub record InSync (r : Raft) : Type 0 where
  pub log_writable : r.disk.log_writable ≡ true
  pub snapshot_writable : r.disk.snapshot_writable ≡ true
  pub log_saved : saved_log r.disk ≡ r.log
  pub snapshot_saved : r.disk.snapshot ≡ r.snapshot
  pub first : LogEntry
  pub first_is : get_elem? r.log 0 ≡ some first
  pub anchored : Anchors r.snapshot r.log_base_index first

-- `s` has the log, the snapshot and their files of `r`.
pub record SameFiles (r s : Raft) : Type 0 where
  pub log : s.log ≡ r.log
  pub log_base_index : s.log_base_index ≡ r.log_base_index
  pub snapshot : s.snapshot ≡ r.snapshot
  pub log_file : s.disk.log ≡ r.disk.log
  pub snapshot_file : s.disk.snapshot ≡ r.disk.snapshot
  pub log_writable : s.disk.log_writable ≡ r.disk.log_writable
  pub snapshot_writable : s.disk.snapshot_writable ≡ r.disk.snapshot_writable

saved_log-same : (d d' : Disk) → d'.log ≡ d.log → saved_log d' ≡ saved_log d
unfolding boot_entries load_log
saved_log-same d d' same = rw (same, boot_entries, load_log) refl

pub InSync-SameFiles : (r s : Raft) → SameFiles r s → InSync r → InSync s
InSync-SameFiles r s same v = record {
  log_writable = same.log_writable ∙ v.log_writable;
  snapshot_writable = same.snapshot_writable ∙ v.snapshot_writable;
  log_saved = saved_log-same r.disk s.disk same.log_file ∙ (v.log_saved ∙ sym same.log);
  snapshot_saved = same.snapshot_file ∙ (v.snapshot_saved ∙ sym same.snapshot);
  first = v.first;
  first_is = rw same.log v.first_is;
  anchored = rw (same.snapshot, same.log_base_index) v.anchored;
}

pub SameFiles-refl : (r : Raft) → SameFiles r r
SameFiles-refl r = ground arith

pub SameFiles-trans : (r s t : Raft) → SameFiles r s → SameFiles s t → SameFiles r t
SameFiles-trans r s t p q = ground arith

pub SameFiles-track_peers :
    (ps : List NodeId) (last_idx base : ℕ) (r : Raft) → SameFiles r (track_peers ps last_idx base r)
unfolding track_peers
SameFiles-track_peers [] last_idx base r = SameFiles-refl r
SameFiles-track_peers (p ∷ ps) last_idx base r = SameFiles-trans r _ _ (ground arith) (
    SameFiles-track_peers ps last_idx base (record r {
      next_index = put p last_idx r.next_index;
      match_index = put p base r.match_index;
    }))

pub SameFiles-become_leader : (r : Raft) → SameFiles r (become_leader r)
unfolding become_leader
SameFiles-become_leader r = SameFiles-trans r _ _ (ground arith) (
    SameFiles-track_peers r.peers (last_log_index r + 1) r.log_base_index
      (record r { state = leader; leader_id = r.id }))

pub SameFiles-adopt_term : (term : ℕ) (r : Raft) → SameFiles r (adopt_term term r)
unfolding adopt_term
SameFiles-adopt_term term r = ground arith

SameFiles-campaign : (now : ℕ) (r : Raft) → SameFiles r (campaign now r)
unfolding campaign
SameFiles-campaign now r = ground arith

pub SameFiles-start_election : (now : ℕ) (r : Raft) → SameFiles r (start_election now r).0
unfolding start_election
SameFiles-start_election now r =
    let started = campaign now r in
    let to_leader =
      SameFiles-trans r started (become_leader started) (SameFiles-campaign now r)
        (SameFiles-become_leader started) in
    ground (arith, SameFiles-campaign now r, to_leader)

pub SameFiles-election_tick :
    (timeout now : ℕ) (r : Raft) → SameFiles r (election_tick timeout now r).0
unfolding election_tick
SameFiles-election_tick timeout now r = ground (arith, SameFiles-start_election now r)

pub SameFiles-handle_vote_response :
    (resp : RequestVoteResponse) (r : Raft) → SameFiles r (handle_vote_response resp r).0
unfolding handle_vote_response
SameFiles-handle_vote_response resp r =
    ground (arith, SameFiles-become_leader (record r { votes = r.votes + 1 }))

pub SameFiles-request_vote :
    (now : ℕ) (req : RequestVoteRequest) (r : Raft) → SameFiles r (request_vote now req r).0
unfolding request_vote
SameFiles-request_vote now req r = ground arith

pub SameFiles-timeout_now :
    (now : ℕ) (req : TimeoutNowRequest) (r : Raft) → SameFiles r (timeout_now now req r).0
unfolding timeout_now
SameFiles-timeout_now now req r =
    let adopted = adopt_term req.term r in
    let elected =
      SameFiles-trans r adopted (start_election now adopted).0 (SameFiles-adopt_term req.term r)
        (SameFiles-start_election now adopted) in
    ground (arith, elected)

pub SameFiles-handle_config_change :
    (now : ℕ) (e : LogEntry) (r : Raft) → SameFiles r (handle_config_change_if_needed now e r)
unfolding handle_config_change_if_needed
SameFiles-handle_config_change now e r = ground arith

pub SameFiles-apply_taken : (now : ℕ) (r : Raft) → SameFiles r (apply_taken_by now r)
unfolding apply_taken_by handle_config_change_if_needed
SameFiles-apply_taken now r = ground arith

pub SameFiles-update_commit_index : (r : Raft) → SameFiles r (update_commit_index r)
unfolding update_commit_index
SameFiles-update_commit_index r = ground arith

pub SameFiles-send_heartbeats : (r : Raft) → SameFiles r (send_heartbeats r).0
unfolding send_heartbeats
SameFiles-send_heartbeats r = ground (arith, SameFiles-update_commit_index r)

pub SameFiles-snapshot_sent :
    (delivered : Bool) (p : NodeId) (snap : Snapshot) (r : Raft)
    → SameFiles r (snapshot_sent delivered p snap r)
unfolding snapshot_sent
SameFiles-snapshot_sent delivered p snap r = ground arith

pub SameFiles-transfer_answered :
    (target : NodeId) (resp : TimeoutNowResponse) (r : Raft)
    → SameFiles r (transfer_answered target resp r)
unfolding transfer_answered
SameFiles-transfer_answered target resp r = ground arith

pub SameFiles-handle_append_response :
    (peer : NodeId) (prev : ℕ) (entries : List LogEntry) (resp : AppendEntriesResponse) (r : Raft)
    → SameFiles r (handle_append_response peer prev entries resp r).0
unfolding handle_append_response record_success set_progress backtrack
SameFiles-handle_append_response peer prev entries resp r =
    ground (arith, SameFiles-update_commit_index (record_success peer prev entries r))
