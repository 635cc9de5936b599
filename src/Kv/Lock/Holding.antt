-- ===== src/Kv/Lock/Holding.antt =====
-- A lock over a clerk whose calls get through, and what an uncertain answer does to it.
use Prim.Native.String.{String}
use text.Mathlib.Text.{◌==◌ as str_eq}
use text.Mathlib.TextEquality.{eq_iff}
use my.Prelude.{
  ℕ, zero, suc, ◌≡◌, ◌≢◌, refl, Bool, true, false, none, some, arith, Returns, Option-cases, inl,
  inr, ◌∙◌, ◌⊎◌, Bool-cases,
}
use my.Prelude.Maps.{string_eq}
use my.Kv.Rpc.{PutArgs, GetArgs, next_version}
use my.Kv.Register.{Register}
use my.Kv.Server.{KvServer, get, put}
use my.Kv.Server.Refines.{IsConsistent, view, put-IsConsistent}
use my.Kv.Lock.{
  Clerk, Lock, is_ok, is_no_key, acquire_round, release_round, run_rounds, acquire, release,
}

abbrev pub get_args : String → GetArgs
get_args key = record { key = key; client_id = 0; request_id = 0 }

abbrev pub put_args : String → String → ℕ → PutArgs
put_args key value version = record {
  key = key;
  value = value;
  version = version;
  client_id = 0;
  request_id = 0;
}

-- The clerk of one server over a network that loses nothing.
abbrev pub direct : Clerk KvServer
direct = record {
  get = λ kv key. let r = get kv (get_args key) in (r.value, r.version, r.err, kv);
  put = λ kv key value version. let (kv', r) = put kv (put_args key value version) in (r.err, kv');
}

module _ (lk : Lock) where
  -- The lock is free: it was never taken, or it was given back.
  abbrev pub IsFree : Register → Type 0
  IsFree none = Unit
  IsFree (some (value, version)) = value ≡ ""

  abbrev taken : Register → Register
  taken none = some (lk.client_id, 1)
  taken (some (value, version)) = some (lk.client_id, next_version version)

  acquire_round-IsFree :
      (kv : KvServer)
      → IsConsistent kv
      → IsFree (view kv lk.lock_id)
      → ((acquire_round direct lk kv).0 ≡ true)
        × (view (acquire_round direct lk kv).1 lk.lock_id ≡ taken (view kv lk.lock_id))
  unfolding acquire_round get put
  acquire_round-IsFree kv c f = elim (Option-cases (kv.key_value lk.lock_id)) [
    | inl e ↦ (
      ground (arith, c.same lk.lock_id),
      ground (arith, c.same lk.lock_id, eq_iff lk.lock_id lk.lock_id),
    )
    | inr (v, e) ↦ (
      ground (arith, eq_iff v "", c.same lk.lock_id),
      ground (arith, eq_iff v "", c.same lk.lock_id, eq_iff lk.lock_id lk.lock_id),
    )
  ]

  acquire_round-state :
      (kv : KvServer)
      → ((acquire_round direct lk kv).1 ≡ kv)
        ⊎ ((version : ℕ) × ((acquire_round direct lk kv).1
              ≡ (put kv (put_args lk.lock_id lk.client_id version)).0))
  unfolding acquire_round
  acquire_round-state kv =
      let g = get kv (get_args lk.lock_id) in
      elim (Bool-cases (is_no_key g.err)) [
        | inl e ↦ inr (0, rw e)
        | inr e ↦ elim (Bool-cases (is_ok g.err)) [
          | inr n ↦ inl (rw (e, n))
          | inl o ↦ elim (Bool-cases (str_eq g.value "")) [
            | inr n ↦ inl (rw (e, o, n))
            | inl v ↦ inr (g.version, ground arith)
          ]
        ]
      ]

  acquire_round-IsConsistent :
      (kv : KvServer) → IsConsistent kv → IsConsistent (acquire_round direct lk kv).1
  acquire_round-IsConsistent kv c = elim (acquire_round-state kv) [
    | inl e ↦ rw e c
    | inr (version, e) ↦ rw e (put-IsConsistent kv (put_args lk.lock_id lk.client_id version) c)
  ]

  release_round-held :
      (kv : KvServer) (v : ℕ)
      → IsConsistent kv
      → view kv lk.lock_id ≡ some (lk.client_id, v)
      → ((release_round direct lk kv).0 ≡ true)
        × (view (release_round direct lk kv).1 lk.lock_id ≡ some ("", next_version v))
  unfolding release_round get put
  release_round-held kv v c e = (
    ground (arith, c.same lk.lock_id, eq_iff lk.client_id lk.client_id),
    ground
        (arith, c.same lk.lock_id, eq_iff lk.client_id lk.client_id, eq_iff lk.lock_id lk.lock_id),
  )

  acquire_round-held :
      (kv : KvServer) (holder : String) (v : ℕ)
      → view kv lk.lock_id ≡ some (holder, v)
      → holder ≢ ""
      → acquire_round direct lk kv ≡ (false, kv)
  unfolding acquire_round get
  acquire_round-held kv holder v e n = ground (arith, eq_iff holder "")

  run_rounds-done :
      (round : KvServer → Bool × KvServer) (fuel : ℕ) (kv : KvServer)
      → (round kv).0 ≡ true
      → run_rounds round (suc fuel) kv ≡ some (round kv).1
  unfolding run_rounds
  run_rounds-done round fuel kv e = rw e

  pub run_rounds-stuck :
      (round : KvServer → Bool × KvServer) (fuel : ℕ) (kv : KvServer)
      → round kv ≡ (false, kv)
      → run_rounds round fuel kv ≡ none
  unfolding run_rounds
  run_rounds-stuck round zero kv e = refl
  run_rounds-stuck round (suc fuel) kv e = rw e (run_rounds-stuck round fuel kv e)

  taken_by : (r : Register) → (v : ℕ) × (taken r ≡ some (lk.client_id, v))
  taken_by none = (1, refl)
  taken_by (some (value, version)) = (next_version version, refl)

  -- On consistent maps and over a network that loses nothing, a free lock is acquired in one round
  -- and then holds the client's name, and the client's release returns in one round and frees it.
  pub acquire-release :
      (kv : KvServer) (fuel fuel' : ℕ)
      → IsConsistent kv
      → IsFree (view kv lk.lock_id)
      → Returns (acquire direct lk (suc fuel) kv) λ held.
        ((v : ℕ) × (view held lk.lock_id ≡ some (lk.client_id, v)))
        × Returns (release direct lk (suc fuel') held) λ freed. IsFree (view freed lk.lock_id)
  acquire-release kv fuel fuel' c f =
      let (done, took) = acquire_round-IsFree kv c f in
      let (v, e) = taken_by (view kv lk.lock_id) in
      let held = (acquire_round direct lk kv).1 in
      let (done', gave) = release_round-held held v (acquire_round-IsConsistent kv c) (took ∙ e) in
      unfold acquire release in
      rw (run_rounds-done (acquire_round direct lk) fuel kv done) (
        (v, took ∙ e),
        rw (run_rounds-done (release_round direct lk) fuel' held done') (rw gave refl),
      )

  -- While the lock holds a name that is not empty, be it the client's own, and nobody else acts,
  -- `Acquire` does not return after any number of rounds.
  pub acquire-held :
      (kv : KvServer) (holder : String) (v fuel : ℕ)
      → view kv lk.lock_id ≡ some (holder, v)
      → holder ≢ ""
      → acquire direct lk fuel kv ≡ none
  acquire-held kv holder v fuel e n =
      unfold acquire in
      run_rounds-stuck (acquire_round direct lk) fuel kv (acquire_round-held kv holder v e n)
