-- ===== src/Auth.antt =====
-- The service of server/internal/auth/service.go: accounts and device-bound sessions.
pub mod External
pub mod Password
pub mod Token
pub mod Refresh
pub mod Reuse
pub mod Spent
pub mod Later
pub mod Accounts
use Prim.Native.String.{len}
use stok_sync.Common.{
  Option, none, some, Bool, true, false, not, ◌&&◌, ◌||◌, String, if◌then◌else◌, ◌==◌, ◌≤◌, ltb,
  is_some, any_some, List,
}
use stok_sync.Common.Int.{ℤ, ◌+ℤ◌, ltb_ℤ, leb_ℤ}
use stok_sync.Common.Text.{str_eq, trim_space, contains_char, is_separator}
use stok_sync.Common.Lists.{length}
use stok_sync.Errors.{Uuid, Time, AuthError, auth_error, plain, no_rows, Error, Result, ok, err}
use stok_sync.Db.Types.{
  Database, User, Device, RefreshToken, CreateRefreshTokenParams, CreateUserParams,
  RegisterDeviceParams,
}
use stok_sync.Db.Tx.{Tx, pure, fail, from_result, attempt, ◌>>=◌, with_tx_result}
use stok_sync.Db.Auth.{
  insert_user, get_user_by_email_sql, register_device, get_refresh_token_for_update,
  insert_refresh_token, mark_refresh_token_rotated, revoke_refresh_token,
  revoke_device_refresh_tokens,
}
use External.{Libraries}
use Password.{hash_password, verify_password}
use Token.{TokenManager, issue_access_token}

pub record LoginInput : Type 0 where
  pub email : String
  pub password : String
  pub device_id : Uuid
  pub device_name : String
  pub platform : String

pub record Session : Type 0 where
  pub user_id : Uuid
  pub device_id : Uuid
  pub access_token : String
  pub access_token_expires_at : Time
  pub refresh_token : String

-- `transactionOutcome`: a session, or the `authErr` of a transaction that commits.
pub data TransactionOutcome : Type 0 where
  session : Session → TransactionOutcome
  auth_err : AuthError → TransactionOutcome

-- What one request draws: the refresh token of `refreshTokenGenerator`, if it succeeds, and the
-- identifiers of `uuid.New` for the account, the token's row and the access token.
pub record Draws : Type 0 where
  pub refresh_token : Option String
  pub user_id : Uuid
  pub row_id : Uuid
  pub access_token_id : Uuid

pub record Service : Type 0 where
  pub lib : Libraries
  pub tokens : TokenManager
  pub refresh_token_ttl : ℤ

module _ (s : Service) where
  abbrev is_email : String → Bool
  is_email email =
      not (str_eq email "")
      && not (ltb 254 (len email))
      && not (contains_char is_separator email)
      && any_some (λ address. str_eq address email) (s.lib.parse_address email)
      && contains_char (λ c. c == b'@') email

  -- `none` stands for the error.
  unfoldable pub normalize_email : String → Option String
  unfolding trim_space
  normalize_email raw =
      if is_email (s.lib.to_lower (trim_space raw))
      then some (s.lib.to_lower (trim_space raw))
      else none

  abbrev with_email : LoginInput → Option String → Result LoginInput
  with_email input none = err (auth_error AuthError.invalid_input)
  with_email input (some email) =
      if len input.password == 0
        || ltb 72 (len input.password)
        || input.device_id == 0
        || str_eq input.device_name ""
        || ltb 128 (len input.device_name)
        || str_eq input.platform ""
        || ltb 64 (len input.platform)
      then err (auth_error AuthError.invalid_input)
      else ok (record input { email = email })

  unfoldable pub normalize_login_input : LoginInput → Result LoginInput
  unfolding normalize_email trim_space
  normalize_login_input input =
      with_email
        (record input {
          device_name = trim_space input.device_name;
          platform = trim_space input.platform;
        })
        (normalize_email input.email)

  -- `HashRefreshToken`.
  abbrev pub hash_refresh_token : String → String
  hash_refresh_token raw = s.lib.sha256_hex raw

  unfoldable pub is_refresh_token_shape_valid : String → Bool
  is_refresh_token_shape_valid token =
      not (ltb (len token) 43)
      && not (ltb 128 (len token))
      && not (contains_char is_separator token)
      && any_some (λ bytes. length bytes == 32) (s.lib.decode_string token)

  abbrev pub stored_token : Time → Draws → Uuid → Uuid → String → CreateRefreshTokenParams
  stored_token now draws user device raw = record {
    id = draws.row_id;
    user_id = user;
    device_id = device;
    token_hash = hash_refresh_token raw;
    expires_at = now +ℤ s.refresh_token_ttl;
  }

  abbrev session_of :
      Time
      → Draws
      → Uuid
      → Uuid
      → String
      → Result (String × Time)
      → Result (Session × CreateRefreshTokenParams)
  session_of now draws user device raw (err e) = err e
  session_of now draws user device raw (ok (text, expires)) = ok (
    record {
      user_id = user;
      device_id = device;
      access_token = text;
      access_token_expires_at = expires;
      refresh_token = raw;
    },
    stored_token now draws user device raw,
  )

  unfoldable pub new_session :
      Time → Draws → Uuid → Uuid → String → Result (Session × CreateRefreshTokenParams)
  unfolding issue_access_token
  new_session now draws user device raw =
      session_of now draws user device raw
        (issue_access_token s.lib s.tokens now draws.access_token_id user device)

  abbrev pub generated : Draws → Result String
  generated draws = elim draws.refresh_token [
    | none ↦ err (plain "generate refresh token")
    | some raw ↦ ok raw
  ]

  module _ (now : Time) (draws : Draws) where
    abbrev pub store_session : Session × CreateRefreshTokenParams → Tx TransactionOutcome
    store_session issued = do stored ← insert_refresh_token issued.1; pure (session issued.0)

    abbrev pub if_registered : Uuid → LoginInput → Result Device → Tx TransactionOutcome
    if_registered user input (err no_rows) = pure (auth_err AuthError.device_ownership)
    if_registered user input (err e) = fail e
    if_registered user input (ok device) = do
      raw ← from_result (generated draws)
      issued ← from_result (new_session now draws user input.device_id raw)
      store_session issued

    unfoldable pub issue_session_in_transaction : Uuid → LoginInput → Tx TransactionOutcome
    unfolding new_session
    issue_session_in_transaction user input = do
      reply ← attempt (
          register_device (record {
            id = input.device_id;
            user_id = user;
            name = input.device_name;
            platform = input.platform;
          }))
      if_registered user input reply

    -- `return outcome.session, outcome.authErr`.
    abbrev pub answer : Result TransactionOutcome × Database → Result Session × Database
    answer (err e, db) = (err e, db)
    answer (ok (session issued), db) = (ok issued, db)
    answer (ok (auth_err e), db) = (err (auth_error e), db)

    -- A registration that cannot claim its device rolls back.
    abbrev pub or_roll_back : TransactionOutcome → Tx TransactionOutcome
    or_roll_back (session issued) = pure (session issued)
    or_roll_back (auth_err e) = fail (auth_error e)

    abbrev pub if_inserted : LoginInput → Result User → Tx TransactionOutcome
    if_inserted input (err no_rows) = pure (auth_err AuthError.email_taken)
    if_inserted input (err e) = fail e
    if_inserted input (ok user) = issue_session_in_transaction draws.user_id input >>= or_roll_back

    unfoldable pub register_in_transaction : LoginInput → String → Tx TransactionOutcome
    unfolding issue_session_in_transaction
    register_in_transaction input hash = do
      reply ← attempt (
          insert_user s.lib.sql_lower
            (record { id = draws.user_id; email = input.email; password_hash = hash }))
      if_inserted input reply

    abbrev pub register_hashed : LoginInput → Result String → Database → Result Session × Database
    register_hashed input (err e) db = (err e, db)
    register_hashed input (ok hash) db =
        answer (with_tx_result (register_in_transaction input hash) db)

    abbrev pub register_normalized : Result LoginInput → Database → Result Session × Database
    register_normalized (err e) db = (err e, db)
    register_normalized (ok input) db =
        if ltb (len input.password) 8
        then (err (auth_error AuthError.invalid_input), db)
        else register_hashed input (hash_password s.lib input.password) db

    unfoldable pub register : LoginInput → Database → Result Session × Database
    unfolding normalize_login_input hash_password register_in_transaction with_tx_result
    register input = register_normalized (normalize_login_input input)

    unfoldable pub issue_session : Uuid → LoginInput → Database → Result Session × Database
    unfolding issue_session_in_transaction with_tx_result
    issue_session user input db =
        answer (with_tx_result (issue_session_in_transaction user input) db)

    abbrev pub login_found : LoginInput → Option User → Database → Result Session × Database
    login_found input none db = (err (auth_error AuthError.invalid_credentials), db)
    login_found input (some user) db =
        if not (verify_password s.lib user.password_hash input.password)
        then (err (auth_error AuthError.invalid_credentials), db)
        else issue_session user.id input db

    -- The lookup of the account runs outside the transaction.
    abbrev pub login_normalized : Result LoginInput → Database → Result Session × Database
    login_normalized (err e) db = (err e, db)
    login_normalized (ok input) db =
        login_found input (get_user_by_email_sql s.lib.sql_lower input.email db) db

    unfoldable pub login : LoginInput → Database → Result Session × Database
    unfolding normalize_login_input issue_session verify_password
    login input = login_normalized (normalize_login_input input)

    abbrev pub store_rotation :
        RefreshToken → Session × CreateRefreshTokenParams → Tx TransactionOutcome
    store_rotation stored issued = do
      marked ← mark_refresh_token_rotated stored.id
      inserted ← insert_refresh_token issued.1
      pure (session issued.0)

    abbrev pub rotate : RefreshToken → Tx TransactionOutcome
    rotate stored = do
      raw ← from_result (generated draws)
      issued ← from_result (new_session now draws stored.user_id stored.device_id raw)
      store_rotation stored issued

    abbrev pub cut_off_device : RefreshToken → Tx TransactionOutcome
    cut_off_device stored = do
      count ← revoke_device_refresh_tokens stored.user_id stored.device_id
      pure (auth_err AuthError.refresh_token_reuse)

    abbrev pub revoke_expired : RefreshToken → Tx TransactionOutcome
    revoke_expired stored = do
      expired ← revoke_refresh_token stored.id
      pure (auth_err AuthError.refresh_token_expired)

    abbrev pub refresh_found : Result RefreshToken → Tx TransactionOutcome
    refresh_found (err no_rows) = pure (auth_err AuthError.invalid_refresh_token)
    refresh_found (err e) = fail e
    refresh_found (ok stored) =
        if is_some stored.revoked_at
        then cut_off_device stored
        else if not (ltb_ℤ now stored.expires_at)
        then revoke_expired stored
        else rotate stored

    unfoldable pub refresh_in_transaction : String → Tx TransactionOutcome
    unfolding new_session
    refresh_in_transaction raw = do
      reply ← attempt (get_refresh_token_for_update (hash_refresh_token raw))
      refresh_found reply

    unfoldable pub refresh : String → Database → Result Session × Database
    unfolding refresh_in_transaction with_tx_result trim_space is_refresh_token_shape_valid
    refresh raw db =
        if not (is_refresh_token_shape_valid (trim_space raw))
        then (err (auth_error AuthError.invalid_refresh_token), db)
        else answer (with_tx_result (refresh_in_transaction (trim_space raw)) db)

  abbrev pub revoke_found : Result RefreshToken → Tx (Unit {0})
  revoke_found (err no_rows) = pure tt
  revoke_found (err e) = fail e
  revoke_found (ok stored) = do revoked ← revoke_refresh_token stored.id; pure tt

  -- `RevokeRefreshToken` of the service.
  unfoldable pub revoke_token : String → Database → Result (Unit {0}) × Database
  unfolding with_tx_result trim_space is_refresh_token_shape_valid
  revoke_token raw db =
      if not (is_refresh_token_shape_valid (trim_space raw))
      then (ok tt, db)
      else with_tx_result
          (attempt (get_refresh_token_for_update (hash_refresh_token (trim_space raw)))
            >>= revoke_found)
          db

unfoldable pub revoke_device_sessions : Uuid → Uuid → Database → Result (Unit {0}) × Database
unfolding with_tx_result
revoke_device_sessions user device db =
    if user == 0 || device == 0
    then (err (auth_error AuthError.invalid_input), db)
    else with_tx_result (revoke_device_refresh_tokens user device >>= λ _. pure tt) db
