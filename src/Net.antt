-- ===== src/Net.antt =====
-- labrpc/ and tester1/: the simulated network under the servers, and the groups of servers on it.
pub mod Rpc
pub mod Groups
