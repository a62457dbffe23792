-- ===== src/Raft/State.antt =====
-- The data of a node: internal/raft/types.go, the structs of internal/raft/raft.go, and what the
-- stores of meta.go, storage.go and snapshot.go hold on disk.
--
-- A payload is what `json.Unmarshal` reads in an entry's `Data`: `none` stands for bytes that it
-- rejects, an empty slice among them.  Terms, indices and lengths are not negative.
use mimori.Prelude.{Bool, List, Option, String, Table, ℕ}

abbrev pub NodeId : Type 0
NodeId = String

abbrev pub Bytes : Type 0
Bytes = List ℕ

-- `CommandType`: Go's iota numbers.
abbrev pub cmd_put : ℕ
cmd_put = 0

abbrev pub cmd_delete : ℕ
cmd_delete = 1

abbrev pub cmd_config_change : ℕ
cmd_config_change = 2

pub data ConfigChangeType : Type 0 where
  config_add_node config_remove_node : ConfigChangeType

-- One JSON object with the fields of `Command`, of `raftCommand` and of the configuration command; a
-- field that the text leaves out has its zero value.
pub record Document : Type 0 where
  pub op : ℕ
  pub key : Bytes
  pub value : Bytes
  pub type : String
  pub node_id : NodeId

abbrev pub Payload : Type 0
Payload = Option Document

pub record LogEntry : Type 0 where
  pub index : ℕ
  pub term : ℕ
  pub payload : Payload

pub record Snapshot : Type 0 where
  pub last_included_index : ℕ
  pub last_included_term : ℕ
  pub created_at : ℕ
  pub bytes : Bytes

-- `metaData`
pub record MetaData : Type 0 where
  pub term : ℕ
  pub voted_for : NodeId
  pub peers : List NodeId

-- The three files of a data directory.  `none` is a file that is missing or cannot be read, and
-- `*_writable` says whether a write reaches the file: each `Save` replaces it whole or fails.
pub record Disk : Type 0 where
  pub meta : Option MetaData
  pub log : Option (List LogEntry)
  pub snapshot : Option Snapshot
  pub meta_writable : Bool
  pub log_writable : Bool
  pub snapshot_writable : Bool

pub data RaftState : Type 0 where
  follower candidate leader : RaftState

pub data Error : Type 0 where
  not_leader cannot_remove_last_peer node_not_in_cluster persist_failed : Error
  transfer_to_self target_not_in_cluster target_not_caught_up target_not_tracked : Error

pub data Result {ℓ} (A : Type ℓ) : Type ℓ where
  ok : A → Result A
  err : Error → Result A

-- `type Raft struct`, without its mutexes, the connection pool and the channels of the apply loop.
-- `snapshotter` and `restorer` say whether a callback is registered.
pub record Raft : Type 0 where
  pub id : NodeId
  pub peers : List NodeId
  pub state : RaftState
  pub term : ℕ
  pub votes : ℕ
  pub voted_for : NodeId
  pub election_reset : ℕ
  pub log : List LogEntry
  pub commit_index : ℕ
  pub last_applied : ℕ
  pub next_index : Table ℕ
  pub match_index : Table ℕ
  pub leader_id : NodeId
  pub log_base_index : ℕ
  pub disk : Disk
  pub snapshot : Option Snapshot
  pub snapshotter : Bool
  pub restorer : Bool
  pub removed_from_cluster : Bool

-- What a step starts in the background: `go r.broadcastRequestVote(term)`, and the heartbeat loop of
-- a new leader.
pub data Effect : Type 0 where
  broadcast_request_vote : (term : ℕ) → Effect
  heartbeat_loop : Effect

abbrev pub snapshot_check_threshold : ℕ
snapshot_check_threshold = 50

abbrev pub max_entries_per_batch : ℕ
max_entries_per_batch = 100

abbrev pub max_pipeline_inflight : ℕ
max_pipeline_inflight = 3

abbrev pub is_leader_state : RaftState → Bool
is_leader_state RaftState.leader = Bool.true
is_leader_state _ = Bool.false

abbrev pub is_candidate_state : RaftState → Bool
is_candidate_state RaftState.candidate = Bool.true
is_candidate_state _ = Bool.false

abbrev pub is_follower_state : RaftState → Bool
is_follower_state RaftState.follower = Bool.true
is_follower_state _ = Bool.false
