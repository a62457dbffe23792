-- ===== src/Api/Reads.antt =====
-- When `Get` of internal/api/server.go answers from the store.
use mimori.Api.{GetRequest, answered, get_key, read_store}
use mimori.Prelude.{Bool, arith, false, some, str_eq, true, ℕ, ◌-◌, ◌<◌, ◌≡◌, ◌⊎◌}
use mimori.Raft.Query.{has_read_lease, is_leader}
use mimori.Raft.State.{Bytes, Raft, follower, leader}
use mimori.Store.{Pebble, kv_get}

module _ {DB WriteBatch : Type 0} (db : Pebble DB WriteBatch) where
  -- A read that is answered comes from the store of a leader, or it allows stale data and the node is a
  -- follower that has not been removed, knows a leader and heard of it less than four seconds ago.
  pub get_key_sound :
      (now : ℕ) (req : GetRequest) (r : Raft) (d : DB) (value : Bytes) (is_found : Bool)
      → get_key db now req r d ≡ answered value is_found
      → (kv_get db req.key d ≡ some (value, is_found))
        × (r.removed_from_cluster ≡ false)
        × ((r.state ≡ leader)
            ⊎ ((req.allow_stale ≡ true)
                × (r.state ≡ follower)
                × (str_eq r.leader_id "" ≡ false)
                × (now - r.election_reset < 4000)))
  unfolding get_key is_leader has_read_lease read_store
  get_key_sound now req r d value is_found h = ground arith
