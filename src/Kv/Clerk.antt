-- ===== src/Kv/Clerk.antt =====
-- kvsrv1/client.go: the clerk of the unreplicated server, over a network that may lose the request or
-- the reply of each call.
pub mod Once
use Prim.Native.String.{String}
use my.Prelude.{
  ℕ, zero, suc, ◌+◌, Bool, true, false, Option, none, some, List, [], ◌∷◌, if◌then◌else◌,
}
use my.Kv.Rpc.{Err, ok, err_no_key, err_version, err_maybe, PutArgs, PutReply, GetArgs, GetReply}
use my.Kv.Server.{KvServer, get, put, zero_get_reply}

-- What the network does with one call.
pub data Fate : Type 0 where
  request_lost reply_lost delivered : Fate

-- One round of a retry loop: what other clients put before the call, and the call's fate.
pub record Attempt : Type 0 where
  pub others : List PutArgs
  pub fate : Fate

abbrev pub is_conclusive : Err → Bool
is_conclusive ok = true
is_conclusive err_no_key = true
is_conclusive _ = false

-- What `Put` returns for an answer; `first` is false once a call had no answer.
unfoldable pub put_result : Err → Bool → Err
put_result err_version true = err_version
put_result err_version false = err_maybe
put_result err first = err

unfoldable pub puts : KvServer → List PutArgs → KvServer
puts kv [] = kv
puts kv (args ∷ rest) = puts (put kv args).0 rest

-- Whether the server answers a put with success.
abbrev pub executed : Err → ℕ
executed ok = 1
executed _ = 0

-- The loop of `Put` over the attempts: what it returns, if it does, the server afterwards, and how
-- often the server executed this put.
unfoldable pub put_loop : PutArgs → Bool → List Attempt → KvServer → Option Err × KvServer × ℕ
put_loop args first [] kv = (none, kv, 0)
put_loop args first (attempt ∷ rest) kv =
    let kv₁ = puts kv attempt.others in
    let (kv₂, reply) = put kv₁ args in
    elim attempt.fate [
      | request_lost ↦ put_loop args false rest kv₁
      | reply_lost ↦
          (let (result, kv₃, n) = put_loop args false rest kv₂ in
            (result, kv₃, executed reply.err + n))
      | delivered ↦ (some (put_result reply.err first), kv₂, executed reply.err)
    ]

unfoldable pub clerk_put : String → String → ℕ → List Attempt → KvServer → Option Err × KvServer × ℕ
unfolding put_loop
clerk_put key value version =
    put_loop (record { key = key; value = value; version = version; client_id = 0; request_id = 0 })
      true

-- The loop of `Get`: it ends with the first answer that came through and is conclusive.
unfoldable pub get_loop : GetArgs → List Attempt → KvServer → Option GetReply × KvServer
get_loop args [] kv = (none, kv)
get_loop args (attempt ∷ rest) kv =
    let kv₁ = puts kv attempt.others in
    let again = get_loop args rest kv₁ in
    elim attempt.fate [
      | delivered ↦ (if is_conclusive (get kv₁ args).err then (some (get kv₁ args), kv₁) else again)
      | _ ↦ again
    ]
