-- ===== src/Kv/Register.antt =====
-- What a key/value server promises for one key: a register that holds a value with its version, or
-- nothing, and that a conditional put replaces.
use my.Prelude.{ℕ, Option, none, some, ◌==◌, if◌then◌else◌}
use my.Kv.Rpc.{Err, ok, err_no_key, err_version, next_version, GetReply}
use Prim.Native.String.{String}

abbrev pub Register : Type 0
Register = Option (String × ℕ)

unfoldable pub put_register : Register → String → ℕ → Register × Err
put_register none value version = if version == 0 then (some (value, 1), ok) else (none, err_no_key)
put_register (some (old, v)) value version =
    if v == version then (some (value, next_version v), ok) else (some (old, v), err_version)

unfoldable pub get_register : Register → GetReply
get_register none = record { value = ""; version = 0; err = err_no_key }
get_register (some (value, v)) = record { value = value; version = v; err = ok }
