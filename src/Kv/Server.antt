-- ===== src/Kv/Server.antt =====
-- kvsrv1/server.go: the unreplicated server.
pub mod Refines
use Prim.Native.String.{String}
use my.Prelude.{ℕ, Bool, true, false, Option, none, some, ◌==◌, if◌then◌else◌}
use my.Prelude.Maps.{Map, empty, insert, string_eq}
use my.Kv.Rpc.{
  Err, unset, ok, err_no_key, err_version, next_version, PutArgs, PutReply, GetArgs, GetReply,
}

pub record KvServer : Type 0 where
  pub key_version : Map String ℕ
  pub key_value : Map String String

unfoldable pub make_kv_server : KvServer
make_kv_server = record { key_version = empty; key_value = empty }

-- The reply that the RPC layer hands to the handler.
abbrev pub zero_get_reply : GetReply
zero_get_reply = record { value = ""; version = 0; err = unset }

abbrev get_with : Option String → Option ℕ → GetReply
get_with none version = record zero_get_reply { err = err_no_key }
get_with (some value) none = record zero_get_reply { err = err_no_key }
get_with (some value) (some version) = record { value = value; version = version; err = ok }

unfoldable pub get : KvServer → GetArgs → GetReply
get kv args = get_with (kv.key_value args.key) (kv.key_version args.key)

abbrev write : KvServer → PutArgs → ℕ → KvServer
write kv args version = record kv {
  key_value = insert args.key args.value kv.key_value;
  key_version = insert args.key version kv.key_version;
}

abbrev put_with : Option String → Option ℕ → KvServer → PutArgs → KvServer × PutReply
put_with none version kv args =
    if args.version == 0
    then (write kv args 1, record { err = ok })
    else (kv, record { err = err_no_key })
put_with (some value) none kv args = (kv, record { err = err_no_key })
put_with (some value) (some version) kv args =
    if version == args.version
    then (write kv args (next_version version), record { err = ok })
    else (kv, record { err = err_version })

unfoldable pub put : KvServer → PutArgs → KvServer × PutReply
put kv args = put_with (kv.key_value args.key) (kv.key_version args.key) kv args
