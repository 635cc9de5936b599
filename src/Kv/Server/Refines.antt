-- ===== src/Kv/Server/Refines.antt =====
-- The two maps of the server (kvsrv1/server.go) against one register for each key.
use Prim.Native.String.{String}
use text.Mathlib.TextEquality.{eq_iff}
use my.Prelude.{ℕ, ◌≡◌, Option, none, some, arith, if◌then◌else◌}
use my.Prelude.Maps.{◌=?◌, string_eq}
use my.Kv.Rpc.{PutArgs, GetArgs}
use my.Kv.Register.{Register, put_register, get_register}
use my.Kv.Server.{KvServer, get, put, make_kv_server}

-- Both maps bind a key, or neither does.
abbrev pub SameDomain : Option String → Option ℕ → Type 0
SameDomain none none = Unit
SameDomain (some v) (some n) = Unit
SameDomain none (some n) = ⊥
SameDomain (some v) none = ⊥

pub record IsConsistent (kv : KvServer) : Type 0 where
  pub same : (k : String) → SameDomain (kv.key_value k) (kv.key_version k)

abbrev pub pair : Option String → Option ℕ → Register
pair (some v) (some n) = some (v, n)
pair _ _ = none

-- The register of a key.
abbrev pub view : KvServer → String → Register
view kv k = pair (kv.key_value k) (kv.key_version k)

pub make_kv_server-IsConsistent : IsConsistent make_kv_server
unfolding make_kv_server
make_kv_server-IsConsistent = record { same = λ k. tt }

-- On consistent maps, a put is a put on the register of its key, in what it answers as in what it
-- leaves there, and leaves the other registers alone.
pub put-refines :
    (kv : KvServer) (args : PutArgs) (j : String)
    → IsConsistent kv
    → (view (put kv args).0 j ≡ (
        if args.key =? j
        then (put_register (view kv args.key) args.value args.version).0
        else view kv j))
      × ((put kv args).1.err ≡ (put_register (view kv args.key) args.value args.version).1)
unfolding put put_register
put-refines kv args j c = ground (arith, eq_iff args.key j, c.same args.key)

pub put-IsConsistent :
    (kv : KvServer) (args : PutArgs) → IsConsistent kv → IsConsistent (put kv args).0
unfolding put
put-IsConsistent kv args c = record {
  same = λ j. ground (arith, eq_iff args.key j, c.same args.key, c.same j);
}

pub get-refines :
    (kv : KvServer) (args : GetArgs)
    → IsConsistent kv
    → get kv args ≡ get_register (view kv args.key)
unfolding get get_register
get-refines kv args c = ground (arith, c.same args.key)
