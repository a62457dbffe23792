-- ===== src/Store.antt =====
-- internal/storage/storage.go: the key-value store over the Pebble database.  The database is code of
-- another project: its operations are a record, and what its documentation says of them is `PebbleLaws`.
--
-- The bytes of a snapshot stand for the JSON text that they hold: nothing, a text that `json.Unmarshal`
-- rejects, or an object of keys and values.  A key goes through a string of the text (Store/Keys), a value through
-- base64, which keeps its bytes.
pub mod Keys
pub mod Laws
pub mod Restore
use mimori.Prelude.{Bool, List, Option, [], false, none, some, true, ◌∷◌}
use mimori.Raft.State.{Bytes}
use mimori.Store.Keys.{json_entries}

pub data Lookup : Type 0 where
  found : Bytes → Lookup
  not_found : Lookup
  failed : Lookup

-- The calls of the database: `none` is an error, which leaves the database as it was.  `new_iter` is the
-- iteration from the first key on: what it yields, and whether it ends without an error of the iterator.
pub record Pebble (DB WriteBatch : Type 0) : Type 0 where
  pub set : (key value : Bytes) → DB → Option DB
  pub get : Bytes → DB → Lookup
  pub delete : Bytes → DB → Option DB
  pub delete_range : (start end : Bytes) → DB → Option DB
  pub new_iter : DB → Option (List (Bytes × Bytes) × Bool)
  pub new_batch : WriteBatch
  pub batch_set : (key value : Bytes) → WriteBatch → Option WriteBatch
  pub commit : WriteBatch → DB → Option DB

pub data SnapshotData : Type 0 where
  no_data malformed : SnapshotData
  dump : List (Bytes × Bytes) → SnapshotData

module _ {DB WriteBatch : Type 0} (db : Pebble DB WriteBatch) where
  -- `PebbleKV.Put`
  unfoldable pub kv_put : (key value : Bytes) → DB → Option DB
  kv_put key value d = db.set key value d

  -- `PebbleKV.Get`: the value, that there is none, or that the database failed.
  unfoldable pub kv_get : Bytes → DB → Option (Bytes × Bool)
  kv_get key d = elim (db.get key d) [
    | found v ↦ some (v, true)
    | not_found ↦ some ([], false)
    | failed ↦ none
  ]

  -- `PebbleKV.Delete`
  unfoldable pub kv_delete : Bytes → DB → Option DB
  kv_delete key d = db.delete key d

  -- `PebbleKV.Snapshot`, which does not look at the error of the iterator.  An iteration yields distinct keys
  -- in the order in which a map is written.
  unfoldable pub kv_snapshot : DB → Option SnapshotData
  unfolding json_entries
  kv_snapshot d = elim (db.new_iter d) [
    | none ↦ none
    | some (kvs, _) ↦ some (dump (json_entries kvs))
  ]

  -- `reset`: "a range deletion", from nil to nil.
  unfoldable pub reset : DB → Option DB
  reset d = db.delete_range [] [] d

  -- The loop of `Restore` over the keys of the snapshot.
  unfoldable pub fill_batch : List (Bytes × Bytes) → WriteBatch → Option WriteBatch
  fill_batch [] b = some b
  fill_batch ((k, v) ∷ kvs) b = elim (db.batch_set k v b) [
    | none ↦ none
    | some b' ↦ fill_batch kvs b'
  ]

  -- `PebbleKV.Restore`: the database afterwards, and whether it returned without an error.
  unfoldable pub kv_restore : SnapshotData → DB → DB × Bool
  kv_restore no_data d = elim (reset d) [ none ↦ (d, false) | some d' ↦ (d', true) ]
  kv_restore malformed d = (d, false)
  kv_restore (dump kvs) d = elim (reset d) [
    | none ↦ (d, false)
    | some d' ↦ (elim (fill_batch kvs db.new_batch) [
      | none ↦ (d', false)
      | some b ↦ (elim (db.commit b d') [ none ↦ (d', false) | some d'' ↦ (d'', true) ])
    ])
  ]
