-- ===== src/Shards.antt =====
-- shardkv1/: the assignment of shards to groups.
pub mod Config
pub mod Check
pub mod Membership
