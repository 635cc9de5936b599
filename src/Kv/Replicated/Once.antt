-- ===== src/Kv/Replicated/Once.antt =====
-- A put of the clerk of kvraft1/client.go on the replicas of kvraft1/server.go, over a network that
-- loses requests and replies, while the leaders change.
use Prim.Native.String.{String}
use my.Prelude.{
  ℕ, ◌+◌, ◌%◌, ◌<◌, ◌≡◌, ◌≢◌, ◌⊎◌, inl, inr, refl, Bool, true, false, Option, some, List, [], ◌∷◌,
  arith, if◌then◌else◌,
}
use my.Prelude.Maps.{nat_eq, nat_beq_iff}
use my.Kv.Rpc.{Err, ok, PutArgs}
use my.Kv.Replicated.{
  Req, get_args, put_args, unknown, Reply, KvServer, is_duplicate, do_op, fresh_put, put_handler,
  Clerk, should_retry, Call, retry_loop, clerk_put,
}
use my.Kv.Replicated.Dedup.{
  Recorded, IsOld, put-Recorded, old-Recorded, Recorded-again, fresh_put-others, fresh_put-recorded,
}

-- A request that the replicas apply: another one, or this put, which an earlier call has sent.
pub data Event : Type 0 where
  other : Req → Event
  resent : Event

-- A call that fails, with the answer that the clerk gets, may have been applied all the same.
pub data Outcome : Type 0 where
  failed : Bool → Option Err → Outcome
  answered : Outcome

pub record Attempt : Type 0 where
  pub before : List Event
  pub outcome : Outcome

-- The state of the replicas, and the states in which they applied the put without finding it a
-- duplicate, the last one first.
pub record World : Type 0 where
  pub kv : KvServer
  pub effects : List KvServer

abbrev pub execute : PutArgs → World → World × Reply
execute p w =
    let (kv, reply) = do_op w.kv (put_args p) in
    (
      record {
        kv = kv;
        effects =
            if is_duplicate (w.kv.last_request p.client_id) p.request_id
            then w.effects
            else w.kv ∷ w.effects;
      },
      reply,
    )

abbrev pub event : PutArgs → World → Event → World
event p w (other r) = record w { kv = (do_op w.kv r).0 }
event p w resent = (execute p w).0

abbrev pub events : PutArgs → World → List Event → World
events p w [] = w
events p w (e ∷ rest) = events p (event p w e) rest

abbrev outcome_of : PutArgs → World → Outcome → Option Err × World
outcome_of p w (failed taken answer) = (answer, if taken then (execute p w).0 else w)
outcome_of p w answered = let (w', reply) = execute p w in (some (put_handler ok reply).err, w')

abbrev pub serve : Attempt → Call World
serve a server_id p w = outcome_of p (events p w a.before) a.outcome

abbrev pub serve_all : List Attempt → List (Call World)
serve_all [] = []
serve_all (a ∷ rest) = serve a ∷ serve_all rest

-- A request of another client, or an earlier one of `p`'s client.
abbrev pub IsEarlier : PutArgs → Req → Type 0
IsEarlier p (get_args r) = Unit
IsEarlier p (put_args r) = (r.client_id ≢ p.client_id) ⊎ (r.request_id < p.request_id)
IsEarlier p unknown = Unit

abbrev pub AreEarlier : PutArgs → List Event → Type 0
AreEarlier p [] = Unit
AreEarlier p (other r ∷ rest) = IsEarlier p r × AreEarlier p rest
AreEarlier p (resent ∷ rest) = AreEarlier p rest

-- The clerk tries again after a failure.
abbrev pub IsFailure : Outcome → Type 0
IsFailure (failed taken answer) = should_retry answer ≡ true
IsFailure answered = ⊥

-- The calls fail, up to one that is answered.
abbrev pub GetsThrough : PutArgs → List Attempt → Type 0
GetsThrough p [] = ⊥
GetsThrough p (a ∷ rest) =
    AreEarlier p a.before × ((a.outcome ≡ answered) ⊎ (IsFailure a.outcome × GetsThrough p rest))

module _ (p : PutArgs) where
  abbrev IsFresh : KvServer → Type 0
  IsFresh kv = is_duplicate (kv.last_request p.client_id) p.request_id ≡ false

  -- The put was applied in `at`, and the answer is recorded.
  record Done (w : World) (at : KvServer) : Type 0 where
    fresh : IsFresh at
    once : w.effects ≡ at ∷ []
    recorded : Recorded w.kv p (do_op at (put_args p)).1

  -- The put was not applied yet, or once.
  data AtMostOnce (w : World) : Type 0 where
    not_yet : w.effects ≡ [] → IsFresh w.kv → AtMostOnce w
    done : (at : KvServer) → Done w at → AtMostOnce w

  earlier-IsFresh : (kv : KvServer) (r : Req) → IsEarlier p r → IsFresh kv → IsFresh (do_op kv r).0
  unfolding do_op
  earlier-IsFresh kv (get_args r) e f = f
  earlier-IsFresh kv unknown e f = f
  earlier-IsFresh kv (put_args r) e f = ground (
    arith,
    fresh_put-others kv r p.client_id,
    fresh_put-recorded kv r,
    nat_beq_iff r.client_id p.client_id,
  )

  IsEarlier-IsOld : (r : Req) → IsEarlier p r → IsOld p r
  IsEarlier-IsOld (get_args r) e = tt
  IsEarlier-IsOld unknown e = tt
  IsEarlier-IsOld (put_args r) (inl n) = inl n
  IsEarlier-IsOld (put_args r) (inr l) = inr (omega arith)

  -- After the put has been applied again it has been applied once.
  execute-Done :
      (w : World)
      → AtMostOnce w
      → (at : KvServer) × Done (execute p w).0 at × ((execute p w).1 ≡ (do_op at (put_args p)).1)
  execute-Done w (not_yet none_yet f) = (
    w.kv,
    record { fresh = f; once = rw (f, none_yet) refl; recorded = put-Recorded w.kv p },
    refl,
  )
  execute-Done w (done at d) =
      let same = Recorded-again w.kv p _ d.recorded in
      let dup : is_duplicate (w.kv.last_request p.client_id) p.request_id ≡ true =
        ground (arith, d.recorded.last, d.recorded.covers) in
      (
        at,
        record { fresh = d.fresh; once = rw dup d.once; recorded = rw same d.recorded },
        rw same refl,
      )

  event-AtMostOnce :
      (w : World) (e : Event) → AreEarlier p (e ∷ []) → AtMostOnce w → AtMostOnce (event p w e)
  event-AtMostOnce w (other r) a (not_yet n f) = not_yet n (earlier-IsFresh w.kv r a.0 f)
  event-AtMostOnce w (other r) a (done at d) = done at (record {
    fresh = d.fresh;
    once = d.once;
    recorded = old-Recorded w.kv p _ r (IsEarlier-IsOld r a.0) d.recorded;
  })
  event-AtMostOnce w resent a m = let (at, d, e) = execute-Done w m in done at d

  events-AtMostOnce :
      (es : List Event) (w : World) → AreEarlier p es → AtMostOnce w → AtMostOnce (events p w es)
  events-AtMostOnce [] w a m = m
  events-AtMostOnce (other r ∷ rest) w a m =
      events-AtMostOnce rest _ a.1 (event-AtMostOnce w (other r) (a.0, tt) m)
  events-AtMostOnce (resent ∷ rest) w a m =
      events-AtMostOnce rest _ a (event-AtMostOnce w resent tt m)

  failed-AtMostOnce :
      (w : World) (taken : Bool) → AtMostOnce w → AtMostOnce (if taken then (execute p w).0 else w)
  failed-AtMostOnce w true m = let (at, d, e) = execute-Done w m in done at d
  failed-AtMostOnce w false m = m

  -- The answer to a put is none to try again for.
  fresh-answer :
      (at : KvServer)
      → IsFresh at
      → should_retry (some (put_handler ok (do_op at (put_args p)).1).err) ≡ false
  unfolding do_op fresh_put put_handler
  fresh-answer at f = ground arith

  -- The loop returns, with the answer of the one time that the put was applied.
  abbrev ReturnsOnce : Option (ℕ × Err) × World → Type 0
  ReturnsOnce out =
      (server_id : ℕ) × (at : KvServer) × IsFresh at
      × (out.1.effects ≡ at ∷ [])
      × (out.0 ≡ some (server_id, (put_handler ok (do_op at (put_args p)).1).err))

  Outcome-cases :
      (o : Outcome)
      → (o ≡ answered) ⊎ ((taken : Bool) × (answer : Option Err) × (o ≡ failed taken answer))
  Outcome-cases answered = inl refl
  Outcome-cases (failed taken answer) = inr (taken, answer, refl)

  retry_loop-ReturnsOnce :
      (attempts : List Attempt) (servers server_id : ℕ) (w : World)
      → GetsThrough p attempts
      → AtMostOnce w
      → ReturnsOnce (retry_loop servers server_id p (serve_all attempts) w)
  unfolding retry_loop
  retry_loop-ReturnsOnce [] servers server_id w g m = absurd g
  retry_loop-ReturnsOnce (a ∷ rest) servers server_id w (earlier, g) m =
      let w₁ = events p w a.before in
      let m₁ = events-AtMostOnce a.before w earlier m in
      elim (Outcome-cases a.outcome) [
        | inl o ↦
            let (at, d, e) = execute-Done w₁ m₁ in
            rw (o, e, fresh-answer at d.fresh) (server_id, at, d.fresh, d.once, refl)
        | inr (taken, answer, o) ↦ elim g [
          | inl came ↦ absurd (cc (o, came))
          | inr (f, g₁) ↦
              let retry : should_retry answer ≡ true = rw o at f in
              rw (o, retry)
                (retry_loop-ReturnsOnce rest servers ((server_id + 1) % servers) _ g₁
                  (failed-AtMostOnce w₁ taken m₁))
        ]
      ]

-- The request of a put.
abbrev pub put_of : Clerk → String → String → ℕ → PutArgs
put_of ck key value version = record {
  key = key;
  value = value;
  version = version;
  client_id = ck.client_id;
  request_id = ck.request_id;
}

-- A put of a clerk whose number its client has not used before, over calls that may fail although
-- the replicas apply the put, that leave copies to be applied later, and between which other
-- clients' and earlier requests are applied: once a call gets through, the put returns, the
-- replicas have taken it for no duplicate exactly once, the answer is the one that the put had
-- then, and the clerk's next request has the next number.
pub clerk_put-IsOnce :
    (ck : Clerk) (key value : String) (version : ℕ) (attempts : List Attempt) (kv : KvServer)
    → is_duplicate (kv.last_request ck.client_id) ck.request_id ≡ false
    → GetsThrough (put_of ck key value version) attempts
    → let p = put_of ck key value version in
      let out =
        clerk_put ck key value version (serve_all attempts) (record { kv = kv; effects = [] }) in
      (ck' : Clerk) × (at : KvServer) × (out.1.effects ≡ at ∷ [])
      × (is_duplicate (at.last_request ck.client_id) ck.request_id ≡ false)
      × (out.0 ≡ some (ck', (put_handler ok (do_op at (put_args p)).1).err))
      × (ck'.client_id ≡ ck.client_id)
      × (ck'.request_id ≡ ck.request_id + 1)
unfolding clerk_put
clerk_put-IsOnce ck key value version attempts kv f g =
    let p = put_of ck key value version in
    let (server_id, at, fresh, once, result) =
      retry_loop-ReturnsOnce p attempts ck.servers ck.leader_id (record { kv = kv; effects = [] }) g
        (not_yet refl f) in
    (
      record ck { leader_id = server_id; request_id = ck.request_id + 1 },
      at,
      once,
      fresh,
      rw result refl,
      refl,
      refl,
    )
