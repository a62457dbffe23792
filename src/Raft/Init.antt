-- ===== src/Raft/Init.antt =====
-- `New` of internal/raft/raft.go: a node from its data directory.
use mimori.Prelude.{List, Option, [], false, if◌then◌else◌, length, none, some, ℕ, ◌+◌, ◌==◌, ◌∷◌}
use mimori.Raft.Config.{replay_config_changes}
use mimori.Raft.Disk.{load_log, load_meta, load_snapshot}
use mimori.Raft.Election.{track_peers}
use mimori.Raft.Log.{last_log_index}
use mimori.Raft.State.{Disk, LogEntry, NodeId, Raft, Snapshot, follower}

-- The entries of the log file, or the dummy entry of a first boot.
unfoldable pub boot_entries : Disk → LogEntry × List LogEntry
unfolding load_log
boot_entries d = elim (load_log d) [
  | [] ↦ (record { index = 0; term = 0; payload = none }, [])
  | e ∷ es ↦ (e, es)
]

-- "Align log base index with snapshot if present".
unfoldable pub align : Option Snapshot → LogEntry × List LogEntry → ℕ × List LogEntry
align none (e, es) = (e.index, e ∷ es)
align (some snap) (e, es) = (
  snap.last_included_index,
  if e.index == snap.last_included_index
      then record e { index = snap.last_included_index; term = snap.last_included_term } ∷ es
      else record {
        index = snap.last_included_index;
        term = snap.last_included_term;
        payload = none;
      }
        ∷ e
        ∷ es,
)

-- The struct literal of `New`.
unfoldable pub boot : (now : ℕ) → NodeId → List NodeId → Disk → Raft
unfolding load_meta load_snapshot boot_entries align
boot now id peers d =
    let md = load_meta d in
    let aligned = align (load_snapshot d) (boot_entries d) in
    record {
      id = id;
      peers = if length md.peers == 0 then peers else md.peers;
      state = follower;
      term = md.term;
      votes = 0;
      voted_for = md.voted_for;
      election_reset = now;
      log = aligned.1;
      commit_index = 0;
      last_applied = 0;
      next_index = [];
      match_index = [];
      leader_id = "";
      log_base_index = aligned.0;
      disk = d;
      snapshot = load_snapshot d;
      snapshotter = false;
      restorer = false;
      removed_from_cluster = false;
    }

-- "If snapshot exists, Raft indexes must start from it".
unfoldable pub start_from_snapshot : Raft → Raft
start_from_snapshot r = elim r.snapshot [
  | none ↦ r
  | some snap ↦ record r {
    commit_index = snap.last_included_index;
    last_applied = snap.last_included_index;
  }
]

-- `New`
unfoldable pub new : (now : ℕ) → NodeId → List NodeId → Disk → Raft
unfolding boot replay_config_changes track_peers last_log_index start_from_snapshot
new now id peers d =
    let r = replay_config_changes now (boot now id peers d) in
    start_from_snapshot (track_peers r.peers (last_log_index r + 1) 0 r)
