-- ===== src/Kv/Replicated.antt =====
-- kvraft1/server.go: the state machine that the replicas run, with its table of the last request of
-- each client, and kvraft1/client.go: the clerk that looks for the leader.
pub mod Dedup
pub mod Once
pub mod Reads
use Prim.Native.String.{String}
use my.Prelude.{
  ℕ, zero, suc, ◌+◌, ◌%◌, ◌≤◌, Bool, true, false, Option, none, some, List, [], ◌∷◌, leb, ◌==◌,
  if◌then◌else◌, ◌>>=◌,
}
use my.Prelude.Maps.{Map, empty, insert, string_eq, nat_eq}
use my.Raft.State.{Bytes}
use my.Kv.Rpc.{
  Err, unset, ok, err_no_key, err_version, err_maybe, err_time_out, err_wrong_leader, next_version,
  PutArgs, PutReply, GetArgs, GetReply,
}

-- A request and a reply are values of type `any`; `nil` is Go's nil.
pub data Req : Type 0 where
  get_args : GetArgs → Req
  put_args : PutArgs → Req
  unknown : Req

pub data Reply : Type 0 where
  get_reply : GetReply → Reply
  put_reply : PutReply → Reply
  nil : Reply

pub record KvServer : Type 0 where
  pub key_version : Map String ℕ
  pub key_value : Map String String
  pub last_request : Map ℕ ℕ
  pub last_reply : Map ℕ Reply

unfoldable pub start_kv_server : KvServer
start_kv_server = record {
  key_version = empty;
  key_value = empty;
  last_request = empty;
  last_reply = empty;
}

-- A read of a map with one result gives the zero value for a missing key.
abbrev pub or_zero : Option ℕ → ℕ
or_zero none = 0
or_zero (some v) = v

abbrev pub or_nil : Option Reply → Reply
or_nil none = nil
or_nil (some r) = r

abbrev get_with : Option String → ℕ → GetReply
get_with none version = record { value = ""; version = 0; err = err_no_key }
get_with (some value) version = record { value = value; version = version; err = ok }

-- `if lastSeq, ok := …; ok { if request.RequestId <= lastSeq …`
abbrev pub is_duplicate : Option ℕ → ℕ → Bool
is_duplicate none request_id = false
is_duplicate (some last_seq) request_id = leb request_id last_seq

abbrev write : KvServer → PutArgs → ℕ → KvServer
write kv r version = record kv {
  key_version = insert r.key version kv.key_version;
  key_value = insert r.key r.value kv.key_value;
}

-- The map writes and the error of a put that is not a duplicate.
abbrev put_with : Option String → KvServer → PutArgs → KvServer × Err
put_with none kv r = if r.version == 0 then (write kv r 1, ok) else (kv, err_no_key)
put_with (some value) kv r =
    let version = or_zero (kv.key_version r.key) in
    if version == r.version then (write kv r (next_version version), ok) else (kv, err_version)

unfoldable pub fresh_put : KvServer → PutArgs → KvServer × Reply
fresh_put kv r =
    let kv₁ = record kv { last_request = insert r.client_id r.request_id kv.last_request } in
    let (kv₂, err) = put_with (kv.key_value r.key) kv₁ r in
    let reply = put_reply (record { err = err }) in
    (
      record kv₂ {
        last_request = insert r.client_id r.request_id kv₂.last_request;
        last_reply = insert r.client_id reply kv₂.last_reply;
      },
      reply,
    )

unfoldable pub do_op : KvServer → Req → KvServer × Reply
unfolding fresh_put
do_op kv (get_args r) =
    (kv, get_reply (get_with (kv.key_value r.key) (or_zero (kv.key_version r.key))))
do_op kv (put_args r) =
    if is_duplicate (kv.last_request r.client_id) r.request_id
    then (kv, or_nil (kv.last_reply r.client_id))
    else fresh_put kv r
do_op kv unknown = (kv, nil)

-- The encoder and the decoder of `encoding/gob` for the four maps of the server.
pub record Gob : Type 0 where
  pub encode : KvServer → Bytes
  pub decode : Bytes → Option KvServer

unfoldable pub snapshot : Gob → KvServer → Bytes
snapshot gob kv = gob.encode kv

-- `none` is the `log.Fatal` for bytes that do not decode.
unfoldable pub restore : Gob → Bytes → Option KvServer
restore gob bytes = gob.decode bytes

abbrev pub is_ok : Err → Bool
is_ok ok = true
is_ok _ = false

abbrev as_put_reply : Reply → PutReply
as_put_reply (put_reply r) = r
as_put_reply _ = record { err = err_maybe }

abbrev as_get_reply : Reply → GetReply
as_get_reply (get_reply r) = r
as_get_reply _ = record { value = ""; version = 0; err = err_maybe }

-- The handlers `Put` and `Get`, given what `rsm.Submit` returned.
unfoldable pub put_handler : Err → Reply → PutReply
put_handler rsm_err res = if is_ok rsm_err then as_put_reply res else record { err = rsm_err }

unfoldable pub get_handler : Err → Reply → GetReply
get_handler rsm_err res =
    if is_ok rsm_err then as_get_reply res else record { value = ""; version = 0; err = rsm_err }

pub record Clerk : Type 0 where
  pub servers : ℕ  -- len(ck.servers)
  pub leader_id : ℕ
  pub client_id : ℕ
  pub request_id : ℕ

abbrev pub should_retry : Option Err → Bool
should_retry none = true
should_retry (some err_time_out) = true
should_retry (some err_wrong_leader) = true
should_retry (some _) = false

abbrev pub or_unset : Option Err → Err
or_unset none = unset
or_unset (some err) = err

-- What one call comes to, on what the network and the servers are: the answer, none if no reply came.
abbrev pub Call : Type 0 → Type 0
Call S = ℕ → PutArgs → S → Option Err × S

-- The loop of `Put` over the calls: the server that answered and its answer. An empty list is a loop
-- that still runs.
unfoldable pub retry_loop :
    {S : Type 0} → ℕ → ℕ → PutArgs → List (Call S) → S → Option (ℕ × Err) × S
retry_loop servers server_id args [] s = (none, s)
retry_loop servers server_id args (call ∷ rest) s =
    let (answer, s') = call server_id args s in
    let again = retry_loop servers ((server_id + 1) % servers) args rest s' in
    if should_retry answer then again else (some (server_id, or_unset answer), s')

unfoldable pub clerk_put :
    {S : Type 0} → Clerk → String → String → ℕ → List (Call S) → S → Option (Clerk × Err) × S
clerk_put ck key value version calls s =
    let args : PutArgs = record {
      key = key;
      value = value;
      version = version;
      client_id = ck.client_id;
      request_id = ck.request_id;
    } in
    let ck' = record ck { request_id = ck.request_id + 1 } in
    let (result, s') = retry_loop ck.servers ck.leader_id args calls s in
    ((do (server_id, err) ← result; some (record ck' { leader_id = server_id }, err)), s')
