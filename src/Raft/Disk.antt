-- ===== src/Raft/Disk.antt =====
-- The stores of internal/raft/meta.go, storage.go and snapshot.go.  Go's JSON keeps every field of
-- what is written, so a file holds the value itself; the temporary file and the rename make a write
-- whole or void.
use mimori.Prelude.{Bool, List, Option, [], false, if◌then◌else◌, none, some, true, ℕ}
use mimori.Raft.State.{Disk, LogEntry, MetaData, NodeId, Snapshot}

-- `MetaStore.Save`; the Boolean is false where it returns an error.
unfoldable pub save_meta : Disk → ℕ → NodeId → List NodeId → Disk × Bool
save_meta d term voted_for peers =
    if d.meta_writable
    then (
      record d { meta = some (record { term = term; voted_for = voted_for; peers = peers }) },
      true,
    )
    else (d, false)

-- `MetaStore.Load`: a missing file is the first boot.
unfoldable pub load_meta : Disk → MetaData
load_meta d = elim d.meta [ none ↦ record { term = 0; voted_for = ""; peers = [] } | some m ↦ m ]

-- `LogStore.SaveAll`
unfoldable pub save_all : Disk → List LogEntry → Disk × Bool
save_all d entries = if d.log_writable then (record d { log = some entries }, true) else (d, false)

-- `LogStore.Load`: no entries where the file is missing or unreadable.
unfoldable pub load_log : Disk → List LogEntry
load_log d = elim d.log [ none ↦ [] | some entries ↦ entries ]

-- `SnapshotStore.Save`
unfoldable pub save_snapshot : Disk → Snapshot → Disk × Bool
save_snapshot d snap =
    if d.snapshot_writable then (record d { snapshot = some snap }, true) else (d, false)

-- `SnapshotStore.Load`
unfoldable pub load_snapshot : Disk → Option Snapshot
load_snapshot d = d.snapshot
