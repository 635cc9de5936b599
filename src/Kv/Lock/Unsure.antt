-- ===== src/Kv/Lock/Unsure.antt =====
-- A lock over a network that loses the reply of the first call of every put.
use text.Mathlib.TextEquality.{eq_iff}
use my.Prelude.{ℕ, zero, suc, ◌≡◌, ◌≢◌, refl, false, Option, none, some, List, [], ◌∷◌, arith}
use my.Kv.Rpc.{Err, unset}
use my.Kv.Server.{KvServer, get, put}
use my.Kv.Server.Refines.{IsConsistent, view}
use my.Kv.Clerk.{reply_lost, delivered, Attempt, clerk_put, put_result, puts}
use my.Kv.Lock.{Clerk, Lock, acquire_round, acquire}
use my.Kv.Lock.Holding.{get_args, run_rounds-stuck}

abbrev twice : List Attempt
twice = record { others = []; fate = reply_lost } ∷ record { others = []; fate = delivered } ∷ []

abbrev pub or_unset : Option Err → Err
or_unset none = unset
or_unset (some err) = err

-- The clerk of kvsrv1 over that network: its puts are sent twice, its gets get through.
abbrev pub unsure : Clerk KvServer
unsure = record {
  get = λ kv key. let r = get kv (get_args key) in (r.value, r.version, r.err, kv);
  put = λ kv key value version.
      let (result, kv', n) = clerk_put key value version twice kv in (or_unset result, kv');
}

module _ (lk : Lock) (kv : KvServer) (c : IsConsistent kv) (fresh : view kv lk.lock_id ≡ none) where
  first_round :
      ((acquire_round unsure lk kv).0 ≡ false)
      × (view (acquire_round unsure lk kv).1 lk.lock_id ≡ some (lk.client_id, 1))
  unfolding acquire_round get put clerk_put put_result puts
  first_round = (
    ground (arith, c.same lk.lock_id, eq_iff lk.lock_id lk.lock_id),
    ground (arith, c.same lk.lock_id, eq_iff lk.lock_id lk.lock_id),
  )

  next_round :
      (kv' : KvServer)
      → view kv' lk.lock_id ≡ some (lk.client_id, 1)
      → lk.client_id ≢ ""
      → acquire_round unsure lk kv' ≡ (false, kv')
  unfolding acquire_round get
  next_round kv' e n = ground (arith, eq_iff lk.client_id "")

  -- A client with a name that is not empty, on consistent maps without the key, over a network
  -- that loses the first reply of each put: after the first round the lock holds its name, and yet
  -- `Acquire` does not return after any number of rounds.
  pub acquire-unsure :
      (fuel : ℕ)
      → lk.client_id ≢ ""
      → (view (acquire_round unsure lk kv).1 lk.lock_id ≡ some (lk.client_id, 1))
        × (acquire unsure lk fuel kv ≡ none)
  acquire-unsure fuel n = (first_round.1, stuck fuel)
    where
      stuck : (fuel : ℕ) → acquire unsure lk fuel kv ≡ none
      stuck zero = unfold acquire in refl
      stuck (suc fuel) =
          unfold acquire in
          rw first_round.0 (
            run_rounds-stuck lk (acquire_round unsure lk) fuel (acquire_round unsure lk kv).1
              (next_round (acquire_round unsure lk kv).1 first_round.1 n))
