-- ===== src/Examples.antt =====
-- The theorems at concrete peers, servers, networks, coordinators and configurations.
pub mod Codec
pub mod Peers
mod Append
mod Election
mod Leader
mod Snapshot
mod Services
mod Shards
pub mod Cluster
mod Matching
mod Rsm
mod Files
mod Jobs
mod Net
