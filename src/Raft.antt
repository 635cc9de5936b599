-- ===== src/Raft.antt =====
-- raft1/raft.go: one Raft peer, its persistent state, its RPC handlers and its background loops,
-- and a group of peers that elect leaders and replicate their logs.
pub mod State
pub mod Log
pub mod Vote
pub mod Append
pub mod Commit
pub mod Snapshots
pub mod Replicate
pub mod Applier
pub mod Startup
pub mod Peer
pub mod Cluster
pub mod Matching
