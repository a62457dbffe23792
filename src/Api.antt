-- ===== src/Api.antt =====
-- internal/api/server.go: the handlers of the key-value service, and the two HTTP endpoints about the
-- node's state.  A handler's calls of the node are taken at one state of the node.
pub mod Names
pub mod Spawn
pub mod Rest
pub mod Spawning
pub mod Nodes
pub mod Reads
pub mod Writes
use mimori.Prelude.{Bool, Option, [], if◌then◌else◌, none, not, some, str_eq, ℕ, ◌++◌, ◌∷◌}
use mimori.Raft.Config.{propose}
use mimori.Raft.Query.{Status, has_read_lease, is_leader, status}
use mimori.Raft.Snapshots.{create_snapshot}
use mimori.Raft.State.{Bytes, Error, NodeId, Payload, Raft, cmd_delete, cmd_put, err, ok}
use mimori.Store.{Pebble, kv_get}

pub record PutRequest : Type 0 where
  pub key : Bytes
  pub value : Bytes

pub record GetRequest : Type 0 where
  pub key : Bytes
  pub allow_stale : Bool

pub record DeleteRequest : Type 0 where
  pub key : Bytes

-- The answers "FailedPrecondition", with the leader that the message names, and other errors.
pub data Refusal : Type 0 where
  write_not_leader read_not_leader lease_expired : NodeId → Refusal
  propose_failed : Error → Refusal
  store_failed : Refusal

-- A write that was proposed answers when the entry at the index is applied.
pub data WriteAnswer : Type 0 where
  after_applied : ℕ → WriteAnswer
  write_refused : Refusal → WriteAnswer

pub data ReadAnswer : Type 0 where
  answered : (value : Bytes) (is_found : Bool) → ReadAnswer
  read_refused : Refusal → ReadAnswer

-- `encodePutCmd` and `encodeDeleteCmd`, as the documents that their JSON holds.
unfoldable pub encode_put_cmd : (key value : Bytes) → Payload
encode_put_cmd key value =
    some (record { op = cmd_put; key = key; value = value; type = ""; node_id = "" })

unfoldable pub encode_delete_cmd : Bytes → Payload
encode_delete_cmd key =
    some (record { op = cmd_delete; key = key; value = []; type = ""; node_id = "" })

-- The part that `Put` and `Delete` share: the guard, the proposal, and the index to wait for.
unfoldable pub propose_write : Payload → Raft → Raft × WriteAnswer
unfolding is_leader propose
propose_write cmd_data r =
    if is_leader r
    then (elim (propose cmd_data r).1 [
      | ok index ↦ ((propose cmd_data r).0, after_applied index)
      | err e ↦ ((propose cmd_data r).0, write_refused (propose_failed e))
    ])
    else (r, write_refused (write_not_leader r.leader_id))

-- `Put`
unfoldable pub put_key : PutRequest → Raft → Raft × WriteAnswer
unfolding encode_put_cmd propose_write
put_key req r = propose_write (encode_put_cmd req.key req.value) r

-- `Delete`
unfoldable pub delete_key : DeleteRequest → Raft → Raft × WriteAnswer
unfolding encode_delete_cmd propose_write
delete_key req r = propose_write (encode_delete_cmd req.key) r

module _ {DB WriteBatch : Type 0} (db : Pebble DB WriteBatch) where
  unfoldable pub read_store : Bytes → DB → ReadAnswer
  unfolding kv_get
  read_store key d = elim (kv_get db key d) [
    | none ↦ read_refused store_failed
    | some (value, is_found) ↦ answered value is_found
  ]

  -- `Get`
  unfoldable pub get_key : (now : ℕ) → GetRequest → Raft → DB → ReadAnswer
  unfolding is_leader has_read_lease read_store
  get_key now req r d =
      if is_leader r
      then read_store req.key d
      else (if req.allow_stale
          then (if has_read_lease now r
              then read_store req.key d
              else read_refused (lease_expired r.leader_id))
          else read_refused (read_not_leader r.leader_id))

-- The endpoint /ready: whether a leader is known.
unfoldable pub is_ready : Raft → Bool
unfolding status
is_ready r = not (str_eq (status r).leader_id "")

pub data SnapshotAnswer : Type 0 where
  method_not_allowed : SnapshotAnswer
  precondition_failed : NodeId → SnapshotAnswer
  snapshot_created : Status → SnapshotAnswer

-- The endpoint /raft/snapshot, for a request with the method POST or another one.
unfoldable pub force_snapshot :
    (is_post : Bool) (now : ℕ) (state_bytes : Option Bytes) → Raft → Raft × SnapshotAnswer
unfolding is_leader status create_snapshot
force_snapshot is_post now state_bytes r =
    if is_post
    then (if is_leader r
        then (let r' = create_snapshot now state_bytes r in (r', snapshot_created (status r')))
        else (r, precondition_failed r.leader_id))
    else (r, method_not_allowed)

-- "not leader, leader="
abbrev pub not_leader_prefix : Bytes
not_leader_prefix =
    110 ∷ 111 ∷ 116 ∷ 32 ∷ 108 ∷ 101 ∷ 97 ∷ 100 ∷ 101 ∷ 114 ∷ 44 ∷ 32 ∷ 108 ∷ 101 ∷ 97 ∷ 100 ∷ 101
    ∷ 114 ∷ 61 ∷ []

-- "follower read lease expired, leader="
abbrev pub lease_prefix : Bytes
lease_prefix =
    102 ∷ 111 ∷ 108 ∷ 108 ∷ 111 ∷ 119 ∷ 101 ∷ 114 ∷ 32 ∷ 114 ∷ 101 ∷ 97 ∷ 100 ∷ 32 ∷ 108 ∷ 101 ∷ 97
    ∷ 115 ∷ 101 ∷ 32 ∷ 101 ∷ 120 ∷ 112 ∷ 105 ∷ 114 ∷ 101 ∷ 100 ∷ 44 ∷ 32 ∷ 108 ∷ 101 ∷ 97 ∷ 100
    ∷ 101 ∷ 114 ∷ 61 ∷ []

-- " (use allow_stale=true for follower reads)"
abbrev pub stale_suffix : Bytes
stale_suffix =
    32 ∷ 40 ∷ 117 ∷ 115 ∷ 101 ∷ 32 ∷ 97 ∷ 108 ∷ 108 ∷ 111 ∷ 119 ∷ 95 ∷ 115 ∷ 116 ∷ 97 ∷ 108 ∷ 101
    ∷ 61 ∷ 116 ∷ 114 ∷ 117 ∷ 101 ∷ 32 ∷ 102 ∷ 111 ∷ 114 ∷ 32 ∷ 102 ∷ 111 ∷ 108 ∷ 108 ∷ 111 ∷ 119
    ∷ 101 ∷ 114 ∷ 32 ∷ 114 ∷ 101 ∷ 97 ∷ 100 ∷ 115 ∷ 41 ∷ []

-- The messages of the refusals that name a leader; `bytes_of` gives the bytes of a name.
unfoldable pub message : (bytes_of : NodeId → Bytes) → Refusal → Option Bytes
message bytes_of (write_not_leader leader_id) = some (not_leader_prefix ++ bytes_of leader_id)
message bytes_of (read_not_leader leader_id) =
    some (not_leader_prefix ++ bytes_of leader_id ++ stale_suffix)
message bytes_of (lease_expired leader_id) = some (lease_prefix ++ bytes_of leader_id)
message bytes_of (propose_failed e) = none
message bytes_of store_failed = none
