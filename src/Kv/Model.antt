-- ===== src/Kv/Model.antt =====
-- The specification that the tests check histories against (`KvModel.Step` of models1/kv.go), and how
-- the server's register meets it.
use Prim.Native.String.{String}
use text.Mathlib.Text.{◌==◌ as str_eq}
use my.Prelude.{ℕ, ◌≡◌, Bool, true, false, not, Option, none, some, arith, ◌==◌, if◌then◌else◌}
use my.Kv.Rpc.{Err, ok, err_no_key, err_version, err_maybe, next_version}
use my.Kv.Register.{Register, put_register}

pub record KvState : Type 0 where
  pub value : String
  pub version : ℕ

pub data KvInput : Type 0 where
  get : KvInput
  put : String → ℕ → KvInput
  other : KvInput

pub record KvOutput : Type 0 where
  pub value : String
  pub err : Err

abbrev pub init : KvState
init = record { value = ""; version = 0 }

abbrev pub is_ok_or_maybe : Err → Bool
is_ok_or_maybe ok = true
is_ok_or_maybe err_maybe = true
is_ok_or_maybe _ = false

abbrev pub is_version_or_maybe : Err → Bool
is_version_or_maybe err_version = true
is_version_or_maybe err_maybe = true
is_version_or_maybe _ = false

-- `none` is the state "<invalid>" of an unknown operation.
pub kv_step : KvState → KvInput → KvOutput → Bool × Option KvState
kv_step st get out = (str_eq out.value st.value, some st)
kv_step st (put value version) out =
    if st.version == version
    then (
      is_ok_or_maybe out.err,
      some (record { value = value; version = next_version st.version }),
    )
    else (is_version_or_maybe out.err, some st)
kv_step st other out = (false, none)

-- A key that is not there is the initial state.
abbrev pub state_of : Register → KvState
state_of none = init
state_of (some (value, version)) = record { value = value; version = version }

abbrev pub is_no_key : Err → Bool
is_no_key err_no_key = true
is_no_key _ = false

-- The step of the specification that the histories are checked against makes the step of the
-- register on every put, and accepts every reply of the register but one: ErrNoKey, for a put with
-- a version to a key that is not there.
pub kv_step-put_register :
    (r : Register) (value : String) (version : ℕ)
    → let out = put_register r value version in
      kv_step (state_of r) (put value version) (record { value = ""; err = out.1 })
      ≡ (not (is_no_key out.1), some (state_of out.0))
unfolding kv_step put_register
kv_step-put_register none value version = ground arith
kv_step-put_register (some (old, v)) value version = ground arith
