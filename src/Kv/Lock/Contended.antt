-- ===== src/Kv/Lock/Contended.antt =====
-- A lock of kvsrv1/lock/lock.go among other clients, over a network that loses requests and replies
-- of the clerk of kvsrv1/client.go.
use text.Mathlib.Text.{◌==◌ as str_eq}
use text.Mathlib.TextEquality.{eq_iff}
use my.Prelude.{
  ℕ, ◌+◌, ◌^◌, ◌<◌, ◌≡◌, ◌≢◌, ◌⊎◌, inl, inr, refl, sym, ap, ◌∙◌, true, some, List, [], ◌∷◌, arith,
  Bool-cases,
}
use my.Kv.Rpc.{ok, next_version, GetReply}
use my.Kv.Server.{KvServer, get}
use my.Kv.Server.Refines.{IsConsistent, view}
use my.Kv.Clerk.{Attempt, put_loop, clerk_put, get_loop}
use my.Kv.Clerk.Once.{version_of}
use my.Kv.Lock.{Clerk, Lock, is_ok, is_maybe, acquire_round}
use my.Kv.Lock.Holding.{get_args, IsFree}
use my.Kv.Lock.Unsure.{or_unset}
use my.Kv.Lock.Own.{
  or_zero, AmongOthers, IsOwn, own_put, get_loop-IsOwn, put_loop-IsOwn, get_loop-reads,
  get_loop-IsConsistent, get-view, ok_result,
}

-- The server, and what the network and other clients do at each of the clerk's calls to come.
abbrev pub World : Type 0
World = KvServer × List (List Attempt)

abbrev next_call : List (List Attempt) → List Attempt × List (List Attempt)
next_call [] = ([], [])
next_call (attempts ∷ rest) = (attempts, rest)

-- The clerk of kvsrv1. A call that has not returned by the end of its attempts gives the zero values.
abbrev pub lossy : Clerk World
lossy = record {
  get = λ w key.
      let (attempts, rest) = next_call w.1 in
      let (result, kv) = get_loop (get_args key) attempts w.0 in
      let r = or_zero result in (r.value, r.version, r.err, (kv, rest));
  put = λ w key value version.
      let (attempts, rest) = next_call w.1 in
      let (result, kv, n) = clerk_put key value version attempts w.0 in
      (or_unset result, (kv, rest));
}

-- The server as a round reads it.
abbrev pub seen : Lock → KvServer → List Attempt → KvServer
seen lk kv gets = (get_loop (get_args lk.lock_id) gets kv).1

module _ (lk : Lock) (kv : KvServer) (gets puts_made checks : List Attempt)
    (rest : List (List Attempt)) (c : IsConsistent kv) (named : lk.client_id ≢ "") where
  abbrev met : ℕ → KvServer
  met version =
      (put_loop (own_put lk.lock_id lk.client_id version) true puts_made (seen lk kv gets)).1

  free-IsOwn :
      (version : ℕ)
      → IsFree lk (view (seen lk kv gets) lk.lock_id)
      → IsOwn lk.lock_id lk.client_id version (seen lk kv gets)
  unfolding IsOwn
  free-IsOwn version free v h = absurd (named (rw h at free))

  -- The round reads a free lock and puts at its version; the answer is OK, or a second read finds
  -- the client's name.
  acquire_round-ends :
      (acquire_round lossy lk (kv, gets ∷ puts_made ∷ checks ∷ rest)).0 ≡ true
      → let v = version_of (seen lk kv gets) lk.lock_id in
        let out = put_loop (own_put lk.lock_id lk.client_id v) true puts_made (seen lk kv gets) in
        let after = (acquire_round lossy lk (kv, gets ∷ puts_made ∷ checks ∷ rest)).1.0 in
        IsFree lk (view (seen lk kv gets) lk.lock_id)
        × (((out.0 ≡ some ok) × (after ≡ out.1))
            ⊎ ((after ≡ (get_loop (get_args lk.lock_id) checks out.1).1)
                × ((or_zero (get_loop (get_args lk.lock_id) checks out.1).0).value ≡ lk.client_id)))
  unfolding acquire_round clerk_put
  acquire_round-ends h =
      let c₁ = get_loop-IsConsistent (get_args lk.lock_id) gets kv c in
      elim (get_loop-reads (get_args lk.lock_id) gets kv) [
        | inl z ↦ absurd (cc (rw z at h))
        | inr e ↦ elim (get-view (seen lk kv gets) lk.lock_id c₁) [
          | inl (n, w, value, z) ↦
              let won = rw (e, n) at h in rw (e, n, w, z) (tt, inl (ok_result _ won, refl))
          | inr (n, o, w, z) ↦
              let r = get (seen lk kv gets) (get_args lk.lock_id) in
              let out =
                put_loop (own_put lk.lock_id lk.client_id r.version) true puts_made
                  (seen lk kv gets) in
              elim (Bool-cases (str_eq r.value "")) [
                | inr b ↦ absurd (cc (rw (e, n, o, b) at h))
                | inl b ↦
                    let free : r.value ≡ "" = (eq_iff r.value "").0 b in
                    elim (Bool-cases (is_ok (or_unset out.0))) [
                      | inl won ↦ rw (e, n, o, b, won, w, z) (free, inl (ok_result out.0 won, refl))
                      | inr lost ↦ elim (Bool-cases (is_maybe (or_unset out.0))) [
                        | inr sure ↦ absurd (cc (rw (e, n, o, b, lost, sure) at h))
                        | inl unsure ↦
                            let found = rw (e, n, o, b, lost, unsure) at h in
                            rw (e, n, o, b, lost, unsure, w, z)
                              (free, inr (refl, (eq_iff _ _).0 found))
                      ]
                    ]
              ]
        ]
      ]

  -- A round of Acquire by a client with a name that is not empty, on consistent maps, over a
  -- network that loses requests and replies of its calls, with other clients' puts between them,
  -- that do not write the client's name to the lock from the time when the round has read it, and
  -- where the version that it read cannot wrap around: when the round returns, the lock was free
  -- as the round read it, and now holds the client's name at the very next version.
  pub acquire_round-takes :
      AmongOthers lk.lock_id lk.client_id puts_made
      → AmongOthers lk.lock_id lk.client_id checks
      → version_of (seen lk kv gets) lk.lock_id + 1 < 2 ^ 64
      → (acquire_round lossy lk (kv, gets ∷ puts_made ∷ checks ∷ rest)).0 ≡ true
      → IsFree lk (view (seen lk kv gets) lk.lock_id)
        × (view (acquire_round lossy lk (kv, gets ∷ puts_made ∷ checks ∷ rest)).1.0 lk.lock_id
            ≡ some (lk.client_id, version_of (seen lk kv gets) lk.lock_id + 1))
  unfolding IsOwn
  acquire_round-takes apart apart' few h =
      let v = version_of (seen lk kv gets) lk.lock_id in
      let (free, ends) = acquire_round-ends h in
      let c₁ = get_loop-IsConsistent (get_args lk.lock_id) gets kv c in
      let (c₂, own, success) =
        put_loop-IsOwn lk.lock_id lk.client_id v true puts_made (seen lk kv gets) c₁ apart
          (free-IsOwn v free) in
      let next : next_version v ≡ v + 1 = omega arith in
      (
        free,
        elim ends [
          | inl (o, after) ↦
              ap (λ (k : KvServer). view k lk.lock_id) after
              ∙ success o
              ∙ ap (λ (m : ℕ). some (lk.client_id, m)) next
          | inr (after, found) ↦
              let last = get_loop (get_args lk.lock_id) checks (met v) in
              let c₃ = get_loop-IsConsistent (get_args lk.lock_id) checks (met v) c₂ in
              let kept = get_loop-IsOwn lk.lock_id lk.client_id v checks (met v) c₂ apart' own in
              ap (λ (k : KvServer). view k lk.lock_id) after
              ∙ elim (get_loop-reads (get_args lk.lock_id) checks (met v)) [
                | inl z ↦ absurd (named (cc (z, found)))
                | inr e ↦ elim (get-view last.1 lk.lock_id c₃) [
                  | inl (n, w, empty, z) ↦
                      absurd (named (sym found ∙ ap (λ (r : GetReply). r.value) e ∙ empty))
                  | inr (n, o, w, z) ↦
                      let held : view last.1 lk.lock_id
                          ≡ some (lk.client_id, (get last.1 (get_args lk.lock_id)).version) =
                        w
                        ∙ ap (λ x. some (x, (get last.1 (get_args lk.lock_id)).version))
                            (sym (ap (λ (r : GetReply). r.value) e) ∙ found) in
                      held ∙ ap (λ (m : ℕ). some (lk.client_id, m)) (kept _ held ∙ next)
                ]
              ]
        ],
      )
