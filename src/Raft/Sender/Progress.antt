-- ===== src/Raft/Sender/Progress.antt =====
-- How a leader follows a peer's progress.
use mimori.Prelude.{
  List, arith, false, find_int, find_int-put, get_last?, if◌then◌else◌, ltb, some, str_elem,
  str_eq_refl, true, ℕ, ◌+◌, ◌-◌, ◌≡◌, ◌≤◌,
}
use mimori.Raft.Commit.{update_commit_index}
use mimori.Raft.Commit.Quorum.{commit_index-le-update}
use mimori.Raft.Replication.{AppendEntriesResponse}
use mimori.Raft.Sender.{
  backtrack, handle_append_response, is_behind_snapshot, next_for, record_success, set_progress,
}
use mimori.Raft.Snapshots.{snapshot_sent}
use mimori.Raft.State.{LogEntry, NodeId, Raft, Snapshot}

-- A refused request moves the next index of the peer back by one, while it is past the first index behind
-- the base and not covered by the snapshot; then it stays.
pub backtrack-next :
    (peer : NodeId) (prev : ℕ) (entries : List LogEntry) (resp : AppendEntriesResponse) (r : Raft)
    → resp.success ≡ false
    → resp.term ≤ r.term
    → is_behind_snapshot (find_int peer r.next_index) r ≡ false
    → let next = find_int peer r.next_index in
      find_int peer (handle_append_response peer prev entries resp r).0.next_index
      ≡ (if ltb (r.log_base_index + 1) next then next - 1 else next)
unfolding handle_append_response backtrack
backtrack-next peer prev entries resp r refused current ahead =
    ground (
      arith,
      find_int-put peer peer (find_int peer r.next_index - 1) r.next_index,
      str_eq_refl peer,
    )

-- An accepted request of a member sets what the peer holds to the last entry sent, and the next index
-- behind it; it never moves the leader's commit index back.
pub accepted-progress :
    (peer : NodeId) (prev : ℕ) (entries : List LogEntry) (e : LogEntry)
    (resp : AppendEntriesResponse) (r : Raft)
    → resp.success ≡ true
    → resp.term ≤ r.term
    → str_elem peer r.peers ≡ true
    → get_last? entries ≡ some e
    → let s = (handle_append_response peer prev entries resp r).0 in
      (find_int peer s.match_index ≡ e.index)
      × (find_int peer s.next_index ≡ e.index + 1)
      × (r.commit_index ≤ s.commit_index)
unfolding handle_append_response record_success set_progress update_commit_index
accepted-progress peer prev entries e resp r taken current member last =
    let s = record_success peer prev entries r in
    ground (
      arith,
      find_int-put peer peer e.index r.match_index,
      find_int-put peer peer (e.index + 1) r.next_index,
      str_eq_refl peer,
      commit_index-le-update s,
    )

-- After a snapshot that was not delivered the leader takes the peer to hold it: the snapshot is not sent
-- again, and a refusal by the peer changes nothing.
pub lost_snapshot-sticks :
    (p : NodeId) (snap : Snapshot) (prev : ℕ) (entries : List LogEntry)
    (resp : AppendEntriesResponse) (r : Raft)
    → r.snapshot ≡ some snap
    → r.log_base_index ≡ snap.last_included_index
    → resp.success ≡ false
    → resp.term ≤ r.term
    → let s = snapshot_sent false p snap r in
      (is_behind_snapshot (next_for p s) s ≡ false)
      × (handle_append_response p prev entries resp s ≡ (s, false))
      × ((backtrack p s).1 ≡ false)
unfolding handle_append_response backtrack snapshot_sent next_for is_behind_snapshot
lost_snapshot-sticks p snap prev entries resp r has base refused current =
    ground (arith, find_int-put p p (snap.last_included_index + 1) r.next_index, str_eq_refl p)
