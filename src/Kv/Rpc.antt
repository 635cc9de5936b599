-- ===== src/Kv/Rpc.antt =====
-- The messages of the key/value services (kvsrv1/rpc/rpc.go).
use my.Prelude.{ℕ, ◌+◌, ◌%◌, ◌^◌}
use Prim.Native.String.{String}

-- The values of `Err`; `unset` is the empty string of a fresh reply.
pub data Err : Type 0 where
  unset ok err_no_key err_version err_time_out err_maybe err_wrong_leader err_wrong_group : Err

-- A `Tversion` is a uint64: what follows `v` wraps around.
abbrev pub next_version : ℕ → ℕ
next_version v = (v + 1) % 2 ^ 64

pub record PutArgs : Type 0 where
  pub key : String
  pub value : String
  pub version : ℕ
  pub client_id : ℕ
  pub request_id : ℕ

pub record PutReply : Type 0 where
  pub err : Err

pub record GetArgs : Type 0 where
  pub key : String
  pub client_id : ℕ
  pub request_id : ℕ

pub record GetReply : Type 0 where
  pub value : String
  pub version : ℕ
  pub err : Err
