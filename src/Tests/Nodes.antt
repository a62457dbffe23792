-- ===== src/Tests/Nodes.antt =====
-- The nodes and the messages of the examples.
use mimori.Prelude.{List, [], arith, false, none, true, ℕ, ◌∷◌}
use mimori.Raft.Election.{RequestVoteRequest}
use mimori.Raft.Invariant.{WellFormed}
use mimori.Raft.Replication.{AppendEntriesRequest}
use mimori.Raft.State.{Disk, LogEntry, Raft, follower, leader}

abbrev pub empty_disk : Disk
empty_disk = record {
  meta = none;
  log = none;
  snapshot = none;
  meta_writable = true;
  log_writable = true;
  snapshot_writable = true;
}

abbrev pub entry : ℕ → ℕ → LogEntry
entry i t = record { index = i; term = t; payload = none }

abbrev pub log_of_three : List LogEntry
log_of_three = entry 0 0 ∷ entry 1 1 ∷ entry 2 2 ∷ []

-- A follower "a" of three nodes that has not voted in term 3.
abbrev pub voter : Raft
voter = record {
  id = "a";
  peers = "b" ∷ "c" ∷ [];
  state = follower;
  term = 3;
  votes = 0;
  voted_for = "";
  election_reset = 0;
  log = log_of_three;
  commit_index = 1;
  last_applied = 0;
  next_index = [];
  match_index = [];
  leader_id = "b";
  log_base_index = 0;
  disk = empty_disk;
  snapshot = none;
  snapshotter = false;
  restorer = false;
  removed_from_cluster = false;
}

pub voter-WellFormed : WellFormed voter
voter-WellFormed = omega arith

-- The same node as the leader of term 2, with "b" caught up.
abbrev pub chief : Raft
chief = record voter {
  state = leader;
  term = 2;
  voted_for = "a";
  votes = 2;
  next_index = ("b", 3) ∷ ("c", 1) ∷ [];
  match_index = ("b", 2) ∷ ("c", 0) ∷ [];
  leader_id = "a";
}

pub chief-WellFormed : WellFormed chief
chief-WellFormed = omega arith

abbrev pub vote_for_b : RequestVoteRequest
vote_for_b = record { term = 4; candidate_id = "b"; last_log_index = 2; last_log_term = 2 }

-- Entry 2 again, and entry 3, from the leader "b" of term 3.
abbrev pub two_entries : AppendEntriesRequest
two_entries = record {
  term = 3;
  leader_id = "b";
  prev_log_index = 1;
  prev_log_term = 1;
  entries = entry 2 3 ∷ entry 3 3 ∷ [];
  leader_commit = 2;
}

abbrev pub heartbeat : AppendEntriesRequest
heartbeat = record two_entries { entries = [] }

-- Entries 7 and 8 after entry 1.
abbrev pub behind_gap : AppendEntriesRequest
behind_gap = record two_entries { entries = entry 7 3 ∷ entry 8 3 ∷ [] }
