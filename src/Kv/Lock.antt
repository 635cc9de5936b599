-- ===== src/Kv/Lock.antt =====
-- kvsrv1/lock/lock.go: a lock kept as a value of the key/value service.
pub mod Unsure
pub mod Holding
pub mod Own
pub mod Contended
use Prim.Native.String.{String}
use text.Mathlib.Text.{◌==◌ as str_eq}
use my.Prelude.{ℕ, zero, suc, Bool, true, false, not, ◌&&◌, Option, none, some, if◌then◌else◌}
use my.Kv.Rpc.{Err, ok, err_no_key, err_maybe}

-- The clerk that a lock is given (`IKVClerk`), over a state of the world that its calls change.
pub record Clerk (S : Type 0) : Type 0 where
  pub get : S → String → String × ℕ × Err × S
  pub put : S → String → String → ℕ → Err × S

pub record Lock : Type 0 where
  pub lock_id : String
  pub client_id : String

-- `random` is the name that `kvtest.RandValue` drew.
unfoldable pub make_lock : String → String → Lock
make_lock l random = record { lock_id = l; client_id = random }

abbrev pub is_ok : Err → Bool
is_ok ok = true
is_ok _ = false

abbrev pub is_no_key : Err → Bool
is_no_key err_no_key = true
is_no_key _ = false

abbrev pub is_maybe : Err → Bool
is_maybe err_maybe = true
is_maybe _ = false

module _ {S : Type 0} (ck : Clerk S) (lk : Lock) where
  -- One round of the loop of `Acquire`: whether it returns, and the world afterwards.
  unfoldable pub acquire_round : S → Bool × S
  acquire_round s =
      let (value, version, err, s₁) = ck.get s lk.lock_id in
      if is_no_key err
      then (let (err_put, s₂) = ck.put s₁ lk.lock_id lk.client_id 0 in (is_ok err_put, s₂))
      else if is_ok err
      then (if str_eq value ""
          then (let (err_put, s₂) = ck.put s₁ lk.lock_id lk.client_id version in
              if is_ok err_put
              then (true, s₂)
              else if is_maybe err_put
              then (let (value', _, _, s₃) = ck.get s₂ lk.lock_id in
                  (str_eq value' lk.client_id, s₃))
              else (false, s₂))
          else (false, s₁))
      else (false, s₁)

  -- One round of the loop of `Release`.
  unfoldable pub release_round : S → Bool × S
  release_round s =
      let (value, version, err, s₁) = ck.get s lk.lock_id in
      if not (is_ok err)
      then (false, s₁)
      else if not (str_eq value "") && not (str_eq value lk.client_id)
      then (false, s₁)
      else (let (err_put, s₂) = ck.put s₁ lk.lock_id "" version in
          if is_ok err_put
          then (true, s₂)
          else if is_maybe err_put
          then (let (value', _, _, s₃) = ck.get s₂ lk.lock_id in (str_eq value' "", s₃))
          else (false, s₂))

-- A loop that runs its round until it returns; `none` is a loop still running when the fuel is out.
unfoldable pub run_rounds : {S : Type 0} → (S → Bool × S) → ℕ → S → Option S
run_rounds round zero s = none
run_rounds round (suc fuel) s =
    let (done, s') = round s in
    let rest = run_rounds round fuel s' in if done then some s' else rest

module _ {S : Type 0} (ck : Clerk S) (lk : Lock) where
  unfoldable pub acquire : ℕ → S → Option S
  unfolding run_rounds acquire_round
  acquire = run_rounds (acquire_round ck lk)

  unfoldable pub release : ℕ → S → Option S
  unfolding run_rounds release_round
  release = run_rounds (release_round ck lk)
