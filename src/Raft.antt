-- ===== src/Raft.antt =====
-- internal/raft: the consensus node.
pub mod Pool
pub mod Cluster
pub mod State
pub mod Disk
pub mod Log
pub mod Invariant
pub mod Config
pub mod Election
pub mod Commit
pub mod Replication
pub mod Snapshots
pub mod Sender
pub mod Pipeline
pub mod Query
pub mod Transfer
pub mod Init
pub mod Applier
pub mod Waiters
pub mod Machine
pub mod Members
