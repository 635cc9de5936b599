-- ===== src/Kv/Replicated/Dedup.antt =====
-- The table of requests of kvraft1/server.go, and puts that the log holds again.
use Prim.Native.String.{String}
use text.Mathlib.TextEquality.{eq_iff}
use my.Prelude.{
  ℕ, ◌≤◌, ◌≡◌, ◌≢◌, ◌⊎◌, inl, inr, refl, true, false, some, List, [], ◌∷◌, arith, if◌then◌else◌,
  Option-cases, Bool-cases, leb, ◌∙◌,
}
use native.Mathlib.Decide.{ℕ_discrete}
use my.Prelude.Maps.{◌=?◌, string_eq, nat_eq, nat_beq_iff}
use my.Kv.Rpc.{PutArgs}
use my.Kv.Register.{Register, put_register}
use my.Kv.Server.Refines.{SameDomain, pair}
use my.Kv.Replicated.{
  Req, get_args, put_args, unknown, Reply, put_reply, KvServer, or_nil, is_duplicate, do_op,
  fresh_put,
}

unfoldable pub do_ops : KvServer → List Req → KvServer
do_ops kv [] = kv
do_ops kv (r ∷ rest) = do_ops (do_op kv r).0 rest

-- The client of `p` has recorded `p`, or a later request, with the answer `answer`.
pub record Recorded (kv : KvServer) (p : PutArgs) (answer : Reply) : Type 0 where
  pub seq : ℕ
  pub last : kv.last_request p.client_id ≡ some seq
  pub covers : p.request_id ≤ seq
  pub reply : or_nil (kv.last_reply p.client_id) ≡ answer

-- A request that another client made, or `p`'s client not after `p`, or that writes nothing.
abbrev pub IsOld : PutArgs → Req → Type 0
IsOld p (get_args r) = Unit
IsOld p (put_args r) = (r.client_id ≢ p.client_id) ⊎ (r.request_id ≤ p.request_id)
IsOld p unknown = Unit

abbrev pub AllOld : PutArgs → List Req → Type 0
AllOld p [] = Unit
AllOld p (r ∷ rest) = IsOld p r × AllOld p rest

pub fresh_put-recorded :
    (kv : KvServer) (p : PutArgs)
    → ((fresh_put kv p).0.last_request p.client_id ≡ some p.request_id)
      × ((fresh_put kv p).0.last_reply p.client_id ≡ some (fresh_put kv p).1)
unfolding fresh_put
fresh_put-recorded kv p = ground (arith, nat_beq_iff p.client_id p.client_id)

pub fresh_put-others :
    (kv : KvServer) (p : PutArgs) (c : ℕ)
    → p.client_id ≢ c
    → ((fresh_put kv p).0.last_request c ≡ kv.last_request c)
      × ((fresh_put kv p).0.last_reply c ≡ kv.last_reply c)
unfolding fresh_put
fresh_put-others kv p c n = ground (arith, nat_beq_iff p.client_id c)

pub put-Recorded :
    (kv : KvServer) (p : PutArgs) → Recorded (do_op kv (put_args p)).0 p (do_op kv (put_args p)).1
unfolding do_op
put-Recorded kv p = elim (Option-cases (kv.last_request p.client_id)) [
  | inl e ↦ rw e (record {
    seq = p.request_id;
    last = (fresh_put-recorded kv p).0;
    covers = omega arith;
    reply = ground (arith, fresh_put-recorded kv p);
  })
  | inr (l, e) ↦ elim (Bool-cases (leb p.request_id l)) [
    | inl d ↦ rw (e, d) (record { seq = l; last = e; covers = ground arith; reply = refl })
    | inr d ↦
        rw (e, d)
          (record {
            seq = p.request_id;
            last = (fresh_put-recorded kv p).0;
            covers = omega arith;
            reply = ground (arith, fresh_put-recorded kv p);
          })
  ]
]

other-Recorded :
    (kv : KvServer) (p : PutArgs) (answer : Reply) (r : PutArgs)
    → r.client_id ≢ p.client_id
    → Recorded kv p answer
    → Recorded (do_op kv (put_args r)).0 p answer
unfolding do_op
other-Recorded kv p answer r n h =
    elim (Bool-cases (is_duplicate (kv.last_request r.client_id) r.request_id)) [
      | inl e ↦ rw e h
      | inr e ↦ rw e (record {
        seq = h.seq;
        last = (fresh_put-others kv r p.client_id n).0 ∙ h.last;
        covers = h.covers;
        reply = ground (arith, fresh_put-others kv r p.client_id n, h.reply);
      })
    ]

pub old-Recorded :
    (kv : KvServer) (p : PutArgs) (answer : Reply) (r : Req)
    → IsOld p r
    → Recorded kv p answer
    → Recorded (do_op kv r).0 p answer
unfolding do_op
old-Recorded kv p answer (get_args r) o h = h
old-Recorded kv p answer unknown o h = h
old-Recorded kv p answer (put_args r) (inl n) h = other-Recorded kv p answer r n h
old-Recorded kv p answer (put_args r) (inr n) h = elim (ℕ_discrete r.client_id p.client_id) [
  | no d ↦ other-Recorded kv p answer r d h
  | yes e ↦
      let d : is_duplicate (kv.last_request r.client_id) r.request_id ≡ true =
        ground (arith, h.last, h.covers) in
      rw d h
]

old-all :
    (kv : KvServer) (p : PutArgs) (answer : Reply) (ops : List Req)
    → AllOld p ops
    → Recorded kv p answer
    → Recorded (do_ops kv ops) p answer
unfolding do_ops
old-all kv p answer [] o h = h
old-all kv p answer (r ∷ rest) o h =
    old-all (do_op kv r).0 p answer rest o.1 (old-Recorded kv p answer r o.0 h)

pub Recorded-again :
    (kv : KvServer) (p : PutArgs) (answer : Reply)
    → Recorded kv p answer
    → do_op kv (put_args p) ≡ (kv, answer)
unfolding do_op
Recorded-again kv p answer h = ground (arith, h.last, h.covers, h.reply)

-- A put that the log holds again, after gets, requests of other clients and requests of its client
-- that are no newer, has the answer that it had the first time, and changes nothing.
pub do_op-again :
    (kv : KvServer) (p : PutArgs) (ops : List Req)
    → AllOld p ops
    → let kv' = do_ops (do_op kv (put_args p)).0 ops in
      do_op kv' (put_args p) ≡ (kv', (do_op kv (put_args p)).1)
do_op-again kv p ops o =
    Recorded-again _ p _ (old-all (do_op kv (put_args p)).0 p _ ops o (put-Recorded kv p))

abbrev pub view : KvServer → String → Register
view kv k = pair (kv.key_value k) (kv.key_version k)

pub record IsConsistent (kv : KvServer) : Type 0 where
  pub same : (k : String) → SameDomain (kv.key_value k) (kv.key_version k)

-- No request leaves a key with a value and without a version, or the other way round.
do_op-IsConsistent : (kv : KvServer) (r : Req) → IsConsistent kv → IsConsistent (do_op kv r).0
unfolding do_op fresh_put
do_op-IsConsistent kv (get_args r) c = c
do_op-IsConsistent kv unknown c = c
do_op-IsConsistent kv (put_args p) c = record {
  same = λ j. ground (arith, eq_iff p.key j, c.same p.key, c.same j);
}

-- On consistent maps, a put that is no duplicate is a put on the register of its key and leaves
-- the other registers alone; it answers as the register does, and the maps stay consistent.
pub do_op-refines :
    (kv : KvServer) (p : PutArgs) (j : String)
    → IsConsistent kv
    → is_duplicate (kv.last_request p.client_id) p.request_id ≡ false
    → let out = do_op kv (put_args p) in
      let spec = put_register (view kv p.key) p.value p.version in
      (view out.0 j ≡ (if p.key =? j then spec.0 else view kv j))
      × (out.1 ≡ put_reply (record { err = spec.1 }))
      × IsConsistent out.0
unfolding do_op fresh_put put_register
do_op-refines kv p j c d = (
  ground (arith, eq_iff p.key j, c.same p.key),
  ground (arith, c.same p.key),
  do_op-IsConsistent kv (put_args p) c,
)
