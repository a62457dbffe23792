-- ===== src/Lib.antt =====
-- Mimori: a replicated key-value store on its own implementation of Raft.
--
-- Parts and how they interact.  A node process (cmd/mimorid/main.go) wires a Raft node (internal/raft), a
-- key-value store over the Pebble database (internal/storage/storage.go) and the services that clients call
-- (internal/api/server.go).  A write is proposed to the leader's log, replicated by AppendEntries, committed
-- when a majority has it, sent through the apply channel, and written to the store by the state machine
-- loop.  A read is answered from the store of a leader, or of a follower with a read lease.  The client
-- (client/client.go) follows the hints of the leader in refusals.
--
-- Files.  Raft/State is the data of a node: the struct Raft as a record, without mutex, channels, timers and
-- connections.  Every critical section of internal/raft is a function from the node to the node and what the
-- code returns; what the environment chooses (the clock, the drawn timeout, the answer of a call, the bytes
-- of the snapshotter, which `select` case is taken) is an argument, and a goroutine that is started is an
-- `Effect`.
--   Raft/Disk          meta.go, storage.go, snapshot.go: Save, SaveAll, Load
--   Raft/Log           raft.go: lastLogIndex, lastLogTerm, entryAt, sliceFrom
--   Raft/Config        raft.go: isKnownNode, applyConfigChangeLocked, handleConfigChangeIfNeeded,
--                      replayConfigChanges, proposeConfigChange, Propose
--   Raft/Election      raft.go: startElectionLocked, becomeLeaderLocked, runElectionTimer,
--                      handleVoteResponse; rpc.go: RequestVote, TimeoutNow
--   Raft/Replication   rpc.go: AppendEntries
--   Raft/Commit        raft.go: updateCommitIndexLocked
--   Raft/Applier       raft.go: runApplier, its two critical sections and the loop
--   Raft/Snapshots     raft.go: createSnapshotLocked; rpc.go: InstallSnapshot; rpc_client.go:
--                      sendSnapshotToFollower
--   Raft/Sender        rpc_client.go: sendHeartbeats, sendAppendEntriesBatch
--   Raft/Pipeline      rpc_client.go: sendBatchesWithPipeline
--   Raft/Init          raft.go: New
--   Raft/Query, Raft/Transfer, Raft/Waiters   raft.go: the queries, the leader transfer, AppliedWait; Raft/Waiters/Signals: the waiters among the
--                      events of the apply loop
--   Raft/Pool          conn_pool.go: getConnection, releaseConnection, removeConnection, closeAll
--   Raft/Members       raft.go: AddNodeInternal, RemoveNodeInternal; rpc.go: AddNode, RemoveNode,
--                      TransferLeadership
--   Raft/Invariant     when a node's log and indices fit together
--   Raft/Machine       the node as a state machine whose events are the critical sections and the restart;
--                      its children are about sequences of events
--   Raft/Cluster       the nodes of a cluster together, each with its life of events
--   Store              internal/storage/storage.go; Store/Keys: its keys in JSON; Store/Laws: what is relied on
--                      of the database
--   Mimorid            cmd/mimorid/main.go: the loop over ApplyCh, convertPeersToNodeIDs;
--                      Mimorid/Settings: env, splitPeers, the settings that main reads
--   Api                internal/api/server.go: Put, Get, Delete, /ready, /raft/snapshot
--   Api/Names          internal/api/server.go: the addresses and names of nodes, leaderHTTPBase,
--                      publicHTTPBaseForNodeID, normalizeNodeIDForHost
--   Api/Rest           internal/api/server.go: the REST handlers, writeError, proxyToLeader
--   Api/Spawn          internal/api/server.go: spawnManager; Api/Spawning: handleSpawnNode,
--                      handleRemoveNode; Api/Nodes: handleClusterNodes
--   Heartbeats         internal/cluster/cluster.go: New, pingPeers, PeersStatus
--   Utils              internal/utils/util.go: ParseHostPort, over the parts of net and strconv
--   Client             client/client.go: extractLeaderHint; Client/Address: normalizeLeaderAddr;
--                      Client/Retry: executeWithRetry, getLeader, discoverLeader, isLeaderError;
--                      Client/Discovery: getHTTPAddr, findLeaderFromNode, verifyLeader, NewWithConfig;
--                      Client/Operations: Put, Get, Delete, Health, and the nodes that answer them
--   Ctl                cmd/mimorictl/client.go: splitAddrList, getHTTPAddr, normalizeLeaderAddr;
--                      Ctl/Manager, Ctl/Discovery: the clientManager; Ctl/Commands: cmd/mimorictl/main.go
--   Prelude            tests on numbers, lists, texts and tables that all parts share
--   Tests              concrete nodes, a database in memory, and the theorems at them
--
-- Bounds.  Terms, indices and times are natural numbers; a difference is written where the code has
-- compared its sides before or then tests for less than zero, or where the clock or the node's invariant
-- (Raft/Invariant) orders its sides.  A conversion to int32 is written as
-- the remainder by 2 ^ 32, which is the number itself below 2 ^ 31; messages carry such numbers and numbers
-- from 2 ^ 31 on, which Go would read as negative, are outside the model.  The apply loop runs on fuel, one
-- round for each entry that is sent, and what it does is stated with as many rounds as there are entries.
-- The digits of a number and the search for a port run on fuel too (Utils/Digits and Api/Spawn/Ports show
-- that it is enough).  All other loops are recursive on a list or on the number of rounds that the code
-- computes.  Ports are ints of 64 bits, whose sums wrap around.  An entry's payload is the JSON document that its bytes hold.
--
-- Not modelled: the network and gRPC, locks and goroutines beyond the order of critical sections, JSON
-- texts, metrics, logs, the page of the dashboard, the flags and the output of the command line tool, and
-- generated code: they are I/O, or behaviour of other projects.
pub mod Prelude
pub mod Raft
pub mod Utils
pub mod Heartbeats
pub mod Store
pub mod Client
pub mod Ctl
pub mod Api
pub mod Mimorid
pub mod Tests
