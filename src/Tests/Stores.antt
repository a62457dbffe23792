-- ===== src/Tests/Stores.antt =====
-- Theorems about the store and the state machine loop, on the database in memory.
use mimori.Mimorid.{apply_entries}
use mimori.Mimorid.Replicated.{WritesSucceed, get-apply_loop}
use mimori.Prelude.{List, [], arith, none, refl, some, ℕ, ◌∷◌, ◌≡◌}
use mimori.Raft.Applier.{apply_loop}
use mimori.Raft.Log.{slice_from}
use mimori.Raft.State.{Bytes, LogEntry, Raft}
use mimori.Store.{dump, fill_batch, found, kv_restore, kv_snapshot, reset}
use mimori.Store.Keys.{is_utf8, json_entries}
use mimori.Store.Restore.{kv_restore-kv_snapshot}
use mimori.Tests.Database.{memory, memory-PebbleLaws}
use mimori.Tests.Nodes.{entry, voter}

-- The key of the snapshot is a letter of two bytes.
kv_restore-kv_snapshot_example :
    memory.get (195 ∷ 169 ∷ []) ((1 ∷ [], 10 ∷ []) ∷ (195 ∷ 169 ∷ [], 20 ∷ []) ∷ [])
    ≡ found (20 ∷ [])
unfolding kv_restore reset fill_batch kv_snapshot is_utf8 json_entries
kv_restore-kv_snapshot_example =
    kv_restore-kv_snapshot memory memory-PebbleLaws ((195 ∷ 169 ∷ [], 20 ∷ []) ∷ [])
      ((1 ∷ [], 10 ∷ []) ∷ []) ((1 ∷ [], 10 ∷ []) ∷ (195 ∷ 169 ∷ [], 20 ∷ []) ∷ [])
      ((195 ∷ 169 ∷ [], 20 ∷ []) ∷ []) (dump ((195 ∷ 169 ∷ [], 20 ∷ []) ∷ [])) refl (refl, tt) refl
      refl (195 ∷ 169 ∷ [])

memory-WritesSucceed : WritesSucceed memory
memory-WritesSucceed = (λ k v d. (_, refl), λ k d. (_, refl))

abbrev command : (op : ℕ) (key value : Bytes) → LogEntry
command op key value = record {
  index = 1;
  term = 1;
  payload = some (record { op = op; key = key; value = value; type = ""; node_id = "" });
}

-- A put, a delete of the same key, and a put of another.
abbrev commands : List LogEntry
commands = command 0 (1 ∷ []) (5 ∷ []) ∷ command 1 (1 ∷ []) [] ∷ command 0 (2 ∷ []) (6 ∷ []) ∷ []

-- The voter with a put as its committed entry.
abbrev putting_voter : Raft
putting_voter = record voter { log = entry 0 0 ∷ command 0 (1 ∷ []) (5 ∷ []) ∷ entry 2 2 ∷ [] }

get-apply_loop_example :
    memory.get (1 ∷ []) (apply_entries memory (apply_loop 1 5 none putting_voter).0 [])
    ≡ found (5 ∷ [])
unfolding slice_from
get-apply_loop_example =
    get-apply_loop memory memory-PebbleLaws memory-WritesSucceed 1 5 none putting_voter
      (omega arith) refl [] (1 ∷ [])
