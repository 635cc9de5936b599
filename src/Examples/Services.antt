-- ===== src/Examples/Services.antt =====
-- The key/value services and the lock (kvsrv1, kvraft1, models1) at concrete requests.
use my.Prelude.{
  ◌+◌, ◌^◌, ◌≢◌, ◌<◌, ◌≡◌, refl, inl, not, true, false, none, some, List, [], ◌∷◌, arith,
  if◌then◌else◌, inr,
}
use Prim.Native.String.{String}
use text.Mathlib.TextEquality.{eq_iff}
use my.Prelude.Maps.{◌=?◌, string_eq}
use my.Kv.Rpc.{ok, err_wrong_leader, PutArgs}
use my.Kv.Register.{put_register}
use my.Kv.Server.{KvServer as KvServer₁, make_kv_server, get, put}
use my.Kv.Lock.Contended.{lossy, seen, acquire_round-takes}
use my.Kv.Clerk.{puts, get_loop, clerk_put as clerk_put₁, put_result}
use my.Kv.Server.Refines.{view, make_kv_server-IsConsistent, put-refines, put-IsConsistent}
use my.Kv.Model.{kv_step, state_of, is_no_key, put as put_input, kv_step-put_register}
use my.Kv.Clerk.{Attempt, reply_lost, delivered, put_loop}
use my.Kv.Clerk.Once.{IsOnce, version_of, put_loop-IsOnce}
use my.Kv.Lock.{Lock, acquire, acquire_round}
use my.Kv.Lock.Holding.{IsFree}
use my.Kv.Lock.Unsure.{unsure, acquire-unsure}
use my.Kv.Replicated.{
  Clerk, put_args, start_kv_server, do_op, is_duplicate, put_reply, clerk_put, KvServer,
  put_handler,
}
use my.Kv.Replicated.Dedup.{do_ops, do_op-again, do_op-refines}
use my.Kv.Replicated.Dedup.{view as replicated_view, IsConsistent as IsConsistentReplica}
use my.Kv.Replicated.Once.{failed, answered, other, resent, serve_all, clerk_put-IsOnce}
use my.Kv.Replicated.Once

abbrev first_put : PutArgs
first_put = record { key = "k"; value = "v"; version = 0; client_id = 7; request_id = 1 }

abbrev other_put : PutArgs
other_put = record { key = "k"; value = "w"; version = 1; client_id = 8; request_id = 1 }

abbrev attempts : List Attempt
attempts =
    record { others = []; fate = reply_lost }
    ∷ record { others = other_put ∷ []; fate = delivered }
    ∷ []

abbrev lk : Lock
lk = record { lock_id = "l"; client_id = "me" }

few : version_of make_kv_server "k" + 3 < 2 ^ 64
unfolding make_kv_server
few = omega arith

put_loop-IsOnce_example :
    IsOnce first_put true
      (put_loop first_put true attempts make_kv_server).0
      (put_loop first_put true attempts make_kv_server).2
put_loop-IsOnce_example =
    put_loop-IsOnce first_put true attempts make_kv_server make_kv_server-IsConsistent few

put-refines_example :
    (view (put make_kv_server first_put).0 "k" ≡ (
      if first_put.key =? "k"
      then (put_register (view make_kv_server "k") "v" 0).0
      else view make_kv_server "k"))
    × ((put make_kv_server first_put).1.err ≡ (put_register (view make_kv_server "k") "v" 0).1)
put-refines_example = put-refines make_kv_server first_put "k" make_kv_server-IsConsistent

kv_step-put_register_example :
    kv_step
      (state_of none)
      (put_input "v" 3)
      (record { value = ""; err = (put_register none "v" 3).1 })
    ≡ (not (is_no_key (put_register none "v" 3).1), some (state_of (put_register none "v" 3).0))
kv_step-put_register_example = kv_step-put_register none "v" 3

me-named : ◌≢◌ {A = String} "me" ""
me-named = λ e. ground (arith, eq_iff "me" "")

fresh : view make_kv_server "l" ≡ none
unfolding make_kv_server
fresh = refl

acquire-unsure_example :
    (view (acquire_round unsure lk make_kv_server).1 "l" ≡ some ("me", 1))
    × (acquire unsure lk 5 make_kv_server ≡ none)
acquire-unsure_example =
    acquire-unsure lk make_kv_server make_kv_server-IsConsistent fresh 5 me-named

do_op-again_example :
    let kv' = do_ops (do_op start_kv_server (put_args first_put)).0 (put_args other_put ∷ []) in
    do_op kv' (put_args first_put) ≡ (kv', (do_op start_kv_server (put_args first_put)).1)
do_op-again_example =
    do_op-again start_kv_server first_put (put_args other_put ∷ []) (inl (λ e. omega arith), tt)

start_kv_server-IsConsistent : IsConsistentReplica start_kv_server
unfolding start_kv_server
start_kv_server-IsConsistent = record { same = λ k. tt }

no_duplicate : is_duplicate (start_kv_server.last_request 7) 1 ≡ false
unfolding start_kv_server
no_duplicate = refl

do_op-refines_example :
    let out = do_op start_kv_server (put_args first_put) in
    let spec = put_register (replicated_view start_kv_server "k") "v" 0 in
    (replicated_view out.0 "k"
      ≡ (if first_put.key =? "k" then spec.0 else replicated_view start_kv_server "k"))
    × (out.1 ≡ put_reply (record { err = spec.1 }))
    × IsConsistentReplica out.0
do_op-refines_example =
    do_op-refines start_kv_server first_put "k" start_kv_server-IsConsistent no_duplicate

abbrev ck : Clerk
ck = record { servers = 3; leader_id = 2; client_id = 7; request_id = 4 }

-- The first call is applied and its reply is lost; the second reaches no leader; the third comes
-- after the put was applied again, and another client's.
abbrev calls : List (Once.Attempt)
calls =
    record { before = []; outcome = failed true none }
    ∷ record { before = []; outcome = failed false (some err_wrong_leader) }
    ∷ record { before = resent ∷ other (put_args other_put) ∷ []; outcome = answered }
    ∷ []

not_known : is_duplicate (start_kv_server.last_request 7) 4 ≡ false
unfolding start_kv_server
not_known = refl

clerk_put-IsOnce_example :
    let p : PutArgs = record {
      key = "k";
      value = "v";
      version = 0;
      client_id = 7;
      request_id = 4;
    } in
    let out =
      clerk_put ck "k" "v" 0 (serve_all calls) (record { kv = start_kv_server; effects = [] }) in
    (ck' : Clerk) × (at : KvServer) × (out.1.effects ≡ at ∷ [])
    × (is_duplicate (at.last_request 7) 4 ≡ false)
    × (out.0 ≡ some (ck', (put_handler ok (do_op at (put_args p)).1).err))
    × (ck'.client_id ≡ 7)
    × (ck'.request_id ≡ 4 + 1)
clerk_put-IsOnce_example =
    clerk_put-IsOnce ck "k" "v" 0 calls start_kv_server not_known
      (tt, inr (refl, (tt, inr (refl, ((inl (λ e. omega arith), tt), inl refl)))))

-- A lock that was given back, among other clients that put another key.
abbrev others : List PutArgs
others = first_put ∷ []

abbrev given_back : PutArgs
given_back = record { key = "l"; value = ""; version = 0; client_id = 0; request_id = 0 }

abbrev free_server : KvServer₁
free_server = (put make_kv_server given_back).0

abbrev one_call : List Attempt
one_call = record { others = others; fate = delivered } ∷ []

-- The reply of the first call is lost, and so the clerk does not know.
abbrev unsure_calls : List Attempt
unsure_calls = record { others = others; fate = reply_lost } ∷ one_call

wins : (acquire_round lossy lk (free_server, one_call ∷ unsure_calls ∷ one_call ∷ [])).0 ≡ true
unfolding acquire_round get put puts make_kv_server get_loop clerk_put₁ put_loop put_result
wins = refl

few_versions : version_of (seen lk free_server one_call) "l" + 1 < 2 ^ 64
unfolding get put puts make_kv_server get_loop
few_versions = omega arith

key_apart : ◌≢◌ {A = String} "k" "l"
key_apart e = ground (arith, eq_iff "k" "l")

acquire_round-takes_example :
    IsFree lk (view (seen lk free_server one_call) "l")
    × (view (acquire_round lossy lk (free_server, one_call ∷ unsure_calls ∷ one_call ∷ [])).1.0 "l"
        ≡ some ("me", version_of (seen lk free_server one_call) "l" + 1))
acquire_round-takes_example =
    acquire_round-takes lk free_server one_call unsure_calls one_call []
      (put-IsConsistent make_kv_server given_back make_kv_server-IsConsistent) me-named
      ((inl key_apart, tt), ((inl key_apart, tt), tt)) ((inl key_apart, tt), tt) few_versions wins
