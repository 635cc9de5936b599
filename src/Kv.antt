-- ===== src/Kv.antt =====
-- The key/value services: kvsrv1 (one server, its clerk, a lock), models1 and kvraft1 (replicated).
pub mod Rpc
pub mod Register
pub mod Server
pub mod Model
pub mod Clerk
pub mod Lock
pub mod Replicated
pub mod Rsm
