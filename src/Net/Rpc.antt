-- ===== src/Net/Rpc.antt =====
-- labrpc/labrpc.go: the network that can lose requests and replies, delay messages and cut servers
-- off. A server is known by its address; times pass between the events that a request meets.
pub mod Delivery
use Prim.Native.Char.{code}
use Prim.Native.String.{String}
use Prim.Native.String as Text
use my.Prelude.{
  ℕ, suc, ◌+◌, ◌%◌, Bool, true, false, not, ◌&&◌, ◌||◌, Option, none, some, List, [], ◌∷◌, ltb,
  ◌==◌, if◌then◌else◌, ◌>>=◌, length,
}
use my.Prelude.Maps.{Map, empty, insert, remove, ◌=?◌, string_eq, nat_eq}
use my.Raft.State.{Bytes}

-- A server by its address; `nil` is none.
abbrev pub Address : Type 0
Address = ℕ

pub record ReplyMsg : Type 0 where
  pub ok : Bool
  pub reply : Bytes

abbrev pub no_reply : ReplyMsg
no_reply = record { ok = false; reply = [] }

pub record Network : Type 0 where
  pub reliable : Bool
  pub long_delays : Bool
  pub long_reordering : Bool
  pub ends : Map String Bool  -- the ends that there are
  pub enabled : Map String Bool
  pub servers : Map String Address
  pub connections : Map String String
  pub count : ℕ
  pub bytes : ℕ

unfoldable pub make_network : Network
make_network = record {
  reliable = true;
  long_delays = false;
  long_reordering = false;
  ends = empty;
  enabled = empty;
  servers = empty;
  connections = empty;
  count = 0;
  bytes = 0;
}

-- What a read of a map of Booleans gives for a missing key.
abbrev pub or_false : Option Bool → Bool
or_false none = false
or_false (some b) = b

-- `none` is the `log.Fatalf` for a name that exists.
unfoldable pub make_end : Network → String → Option Network
make_end rn name = elim (rn.ends name) [
  | some _ ↦ none
  | none ↦ some (record rn {
    ends = insert name true rn.ends;
    enabled = insert name false rn.enabled;
    connections = remove name rn.connections;
  })
]

-- `none` is the `log.Fatalf` for a name that does not exist.
unfoldable pub delete_end : Network → String → Option Network
delete_end rn name = elim (rn.ends name) [
  | none ↦ none
  | some _ ↦ some (record rn {
    ends = remove name rn.ends;
    enabled = remove name rn.enabled;
    connections = remove name rn.connections;
  })
]

unfoldable pub add_server : Network → String → Address → Network
add_server rn name rs = record rn { servers = insert name rs rn.servers }

unfoldable pub delete_server : Network → String → Network
delete_server rn name = record rn { servers = remove name rn.servers }

unfoldable pub connect : Network → String → String → Network
connect rn name server = record rn { connections = insert name server rn.connections }

unfoldable pub enable : Network → String → Bool → Network
enable rn name enabled = record rn { enabled = insert name enabled rn.enabled }

-- The server that an end leads to.
unfoldable pub read_endname_info : Network → String → Bool × Option (String × Address)
read_endname_info rn name = (
  or_false (rn.enabled name),
  (do
    server_name ← rn.connections name
    server ← rn.servers server_name
    some (server_name, server)),
)

abbrev is_address : Option Address → Address → Bool
is_address none server = false
is_address (some s) server = s == server

unfoldable pub is_server_dead : Network → String → String → Address → Bool
is_server_dead rn name server_name server =
    not (or_false (rn.enabled name)) || not (is_address (rn.servers server_name) server)

-- What the loop that waits for the handler meets: its reply, or a timer that fires, with the network
-- as it is then.
pub data Event : Type 0 where
  replied : ReplyMsg → Event
  fired : Network → Event

-- The reply, or none if the server was found dead; no result while the handler still runs.
unfoldable pub await : String → String → Address → List Event → Option (Option ReplyMsg)
await name server_name server [] = none
await name server_name server (replied r ∷ rest) = some (some r)
await name server_name server (fired rn ∷ rest) =
    let later = await name server_name server rest in
    if is_server_dead rn name server_name server then some none else later

-- The numbers that `rand.Int` and `rand.Intn(900)` give.
pub record Dice : Type 0 where
  pub request : ℕ
  pub reply : ℕ
  pub reorder : ℕ

-- What is sent on `req.replyCh`, and whether only after a delay.
abbrev pub Answer : Type 0
Answer = ReplyMsg × Bool

-- `after` is the network when the handler has returned.
unfoldable pub finish :
    Bool → Bool → Dice → Network → String → String → Address → Option ReplyMsg → Answer
unfolding is_server_dead
finish reliable long_reordering dice after name server_name server none = (no_reply, false)
finish reliable long_reordering dice after name server_name server (some reply) =
    if is_server_dead after name server_name server
    then (no_reply, false)
    else if not reliable && ltb (dice.reply % 1000) 100
    then (no_reply, false)
    else if long_reordering && ltb dice.reorder 600
    then (reply, true)
    else (reply, false)

-- `rn` is the network when the request arrives. Whether the request is handed to a server, and the
-- answer, when there is one.
unfoldable pub process_req : Network → Dice → List Event → Network → String → Bool × Option Answer
unfolding read_endname_info await finish
process_req rn dice events after name =
    let (enabled, target) = read_endname_info rn name in
    elim target [
      | none ↦ (false, some (no_reply, true))
      | some (server_name, server) ↦
          if not enabled
          then (false, some (no_reply, true))
          else if not rn.reliable && ltb (dice.request % 1000) 100
          then (false, some (no_reply, false))
          else (
            true,
            (do
              reply ← await name server_name server events
              some
                  (finish rn.reliable rn.long_reordering dice after name server_name server reply)),
          )
    ]

-- What the goroutine of `MakeNetwork` counts for a request, and what a reply that is sent adds.
unfoldable pub count_request : Network → Bytes → Network
count_request rn args = record rn { count = rn.count + 1; bytes = rn.bytes + length args }

unfoldable pub count_reply : Network → Bytes → Network
count_reply rn reply = record rn { bytes = rn.bytes + length reply }

-- A method of a service, from the encoded arguments to the encoded reply.
abbrev pub Handler : Type 0
Handler = Bytes → Bytes

pub record Service : Type 0 where
  pub name : String
  pub methods : Map String Handler

pub record Server : Type 0 where
  pub services : Map String Service
  pub count : ℕ

unfoldable pub make_server : Server
make_server = record { services = empty; count = 0 }

unfoldable pub add_service : Server → Service → Server
add_service rs svc = record rs { services = insert svc.name svc rs.services }

-- `strings.LastIndex(req.svcMeth, ".")` and the two slices, the first of which panics without a dot.
unfoldable pub split_method : String → Option (String × String)
split_method Text.[] = none
split_method (Text.◌∷◌ c s) =
    let rest = split_method s in
    elim rest [
      | some (service, method) ↦ some (Text.◌∷◌ c service, method)
      | none ↦ if code c == b'.' then some (Text.[], s) else none
    ]

unfoldable pub dispatch_method : Service → String → Bytes → Option ReplyMsg
dispatch_method svc method args = elim (svc.methods method) [
  | none ↦ none
  | some handler ↦ some (record { ok = true; reply = handler args })
]

-- The server with its count, and the reply; none is a panic or the `log.Fatalf` for a service or a
-- method that is not there.
unfoldable pub dispatch : Server → String → Bytes → Server × Option ReplyMsg
unfolding split_method dispatch_method
dispatch rs method args = (
  record rs { count = rs.count + 1 },
  (do
    (service_name, method_name) ← split_method method
    service ← rs.services service_name
    dispatch_method service method_name args),
)

-- `ClientEnd.Call`: `sent` is whether the request went off before the network was closed, `rep` what
-- came on `replyCh`. Whether a reply was received, and the reply; none is the `log.Fatalf` for a
-- reply that does not decode.
unfoldable pub call : {R : Type 0} → (Bytes → Option R) → Bool → ReplyMsg → Option (Bool × Option R)
call decode sent rep =
    if not sent
    then some (false, none)
    else if rep.ok
    then (do r ← decode rep.reply; some (true, some r))
    else some (false, none)
