-- ===== src/Tests.antt =====
-- Concrete nodes, and the theorems at them.
pub mod Clusters
pub mod Addresses
pub mod Pools
pub mod Operations
pub mod Waits
pub mod Tools
pub mod Nodes
pub mod Machine
pub mod Stores
pub mod Database
pub mod Restarts
pub mod Logs
pub mod Rounds
pub mod Clients
pub mod Leaders
