-- ===== src/Net/Rpc/Delivery.antt =====
-- What a request of labrpc/labrpc.go comes to.
use Prim.Native.String.{String}
use my.Prelude.{
  ◌≡◌, inl, inr, refl, Bool, true, false, ◌&&◌, ltb, ap, ◌∙◌, Option, none, some, List, [], ◌∷◌,
  arith, Bool-cases, Option-cases,
}
use my.Net.Rpc.{
  Network, Address, ReplyMsg, Event, replied, fired, Dice, await, finish, process_req, or_false,
  read_endname_info, is_server_dead,
}

-- The end is enabled, and leads to the server.
pub record IsReached (rn : Network) (name server_name : String) (server : Address) : Type 0 where
  pub enabled : or_false (rn.enabled name) ≡ true
  pub connected : rn.connections name ≡ some server_name
  pub listed : rn.servers server_name ≡ some server

-- The handler returned this reply before a timer found the server dead.
pub data Returned (name server_name : String) (server : Address) (r : ReplyMsg)
    : List Event → Type 0 where
  now : {rest : List Event} → Returned name server_name server r (replied r ∷ rest)
  later :
      {rn : Network} {rest : List Event}
      → is_server_dead rn name server_name server ≡ false
      → Returned name server_name server r rest
      → Returned name server_name server r (fired rn ∷ rest)

module _ (name server_name : String) (server : Address) where
  await-Returned :
      (events : List Event) (r : ReplyMsg)
      → await name server_name server events ≡ some (some r)
      → Returned name server_name server r events
  unfolding await
  await-Returned [] r h = absurd (cc)
  await-Returned (replied x ∷ rest) r h = let e : x ≡ r = cc in rw e now
  await-Returned (fired rn ∷ rest) r h =
      elim (Bool-cases (is_server_dead rn name server_name server)) [
        | inl dead ↦ absurd (cc (rw dead at h))
        | inr alive ↦ later alive (await-Returned rest r (rw alive at h))
      ]

  Returned-await :
      {r : ReplyMsg} {events : List Event}
      → Returned name server_name server r events
      → await name server_name server events ≡ some (some r)
  unfolding await
  Returned-await now = refl
  Returned-await (later alive rest) = rw alive (Returned-await rest)

module _ (rn : Network) (dice : Dice) (events : List Event) (after : Network) (name : String) where
  -- What stands behind a positive reply.
  pub record IsServed (r : ReplyMsg) : Type 0 where
    pub server_name : String
    pub server : Address
    pub reached : IsReached rn name server_name server
    pub returned : Returned name server_name server r events
    pub alive : is_server_dead after name server_name server ≡ false

  -- The target of a request is a server that its end leads to.
  target-IsReached :
      (server_name : String) (server : Address)
      → (read_endname_info rn name).0 ≡ true
      → (read_endname_info rn name).1 ≡ some (server_name, server)
      → IsReached rn name server_name server
  unfolding read_endname_info
  target-IsReached server_name server e h = elim (Option-cases (rn.connections name)) [
    | inl n ↦ absurd (ground (arith, n))
    | inr (s, c) ↦ elim (Option-cases (rn.servers s)) [
      | inl n ↦ absurd (ground (arith, c, n))
      | inr (a, l) ↦ record {
        enabled = e;
        connected = ground (arith, c, l);
        listed = ground (arith, c, l);
      }
    ]
  ]

  target_of :
      (server_name : String) (server : Address)
      → IsReached rn name server_name server
      → read_endname_info rn name ≡ (true, some (server_name, server))
  unfolding read_endname_info
  target_of server_name server reached = ground (arith, reached.connected, reached.listed)

  finish-positive :
      (server_name : String) (server : Address) (o : Option ReplyMsg) (r : ReplyMsg) (late : Bool)
      → finish rn.reliable rn.long_reordering dice after name server_name server o ≡ (r, late)
      → r.ok ≡ true
      → (o ≡ some r) × (is_server_dead after name server_name server ≡ false)
  unfolding finish
  finish-positive server_name server none r late h ok = absurd (ground (arith, h, ok))
  finish-positive server_name server (some x) r late h ok =
      elim (Bool-cases (is_server_dead after name server_name server)) [
        | inl dead ↦ absurd (ground (arith, h, ok, dead))
        | inr alive ↦ (ground (arith, h, ok, alive), alive)
      ]

  -- Whatever the network, the random numbers and the timers do: when a request is answered with a
  -- positive reply, it was handed to the server that its end was enabled for and connected to, the
  -- handler returned that reply before a timer found the server dead, and the server was not dead
  -- after it.
  pub process_req-IsServed :
      (handed late : Bool) (r : ReplyMsg)
      → process_req rn dice events after name ≡ (handed, some (r, late))
      → r.ok ≡ true
      → (handed ≡ true) × IsServed r
  unfolding process_req
  process_req-IsServed handed late r h ok = elim (Option-cases (read_endname_info rn name).1) [
    | inl n ↦ absurd (ground (arith, n, h, ok))
    | inr ((server_name, server), t) ↦ elim (Bool-cases (read_endname_info rn name).0) [
      | inr off ↦ absurd (ground (arith, t, off, h, ok))
      | inl on ↦ elim (Option-cases (await name server_name server events)) [
        | inl n ↦ absurd (ground (arith, t, on, n, h, ok))
        | inr (o, a) ↦
            let (e, f) : (handed ≡ true)
                × (finish rn.reliable rn.long_reordering dice after name server_name server o
                    ≡ (r, late)) =
              ground (arith, t, on, a, h, ok) in
            let (q, alive) = finish-positive server_name server o r late f ok in
            (
              e,
              record {
                server_name = server_name;
                server = server;
                reached = target-IsReached server_name server on t;
                returned = await-Returned name server_name server events r (a ∙ ap some q);
                alive = alive;
              },
            )
      ]
    ]
  ]

  -- On a reliable network, a request whose end is enabled and leads to a server, and whose handler
  -- returns before a timer finds the server dead, with the server not dead after it, is handed to
  -- the server and answered with the handler's reply, late only with long reordering.
  pub process_req-delivers :
      (server_name : String) (server : Address) (r : ReplyMsg)
      → rn.reliable ≡ true
      → IsReached rn name server_name server
      → Returned name server_name server r events
      → is_server_dead after name server_name server ≡ false
      → (late : Bool) × (process_req rn dice events after name ≡ (true, some (r, late)))
        × (rn.long_reordering ≡ false → late ≡ false)
  unfolding process_req finish
  process_req-delivers server_name server r reliable reached returned alive = (
    rn.long_reordering && ltb dice.reorder 600,
    ground (
      arith,
      target_of server_name server reached,
      Returned-await name server_name server returned,
    ),
    λ o. ground (arith, o),
  )
