-- ===== src/Auth/Password.antt =====
-- server/internal/auth/password.go: the policy around bcrypt.
use Prim.Native.String.{len}
use stok_sync.Common.{
  Option, none, some, Bool, false, ◌||◌, String, if◌then◌else◌, ◌==◌, ltb, is_some,
}
use stok_sync.Common.Text.{str_eq}
use stok_sync.Errors.{AuthError, auth_error, plain, Error, Result, ok, err}
use stok_sync.Auth.External.{Libraries}

-- `none` stands for a nil error.
unfoldable pub validate_password_bytes : String → Option Error
validate_password_bytes password =
    if len password == 0
    then some (auth_error AuthError.password_empty)
    else if ltb 72 (len password)
    then some (auth_error AuthError.password_too_long)
    else none

abbrev generated : Option String → Result String
generated none = err (plain "hash password")
generated (some hash) = ok hash

module _ (lib : Libraries) where
  unfoldable pub hash_password : String → Result String
  unfolding validate_password_bytes
  hash_password password = elim (validate_password_bytes password) [
    | some e ↦ err e
    | none ↦ generated (lib.generate_from_password password)
  ]

  unfoldable pub verify_password : String → String → Bool
  unfolding validate_password_bytes
  verify_password stored password =
      if str_eq stored "" || is_some (validate_password_bytes password)
      then false
      else lib.compare_hash_and_password stored password
