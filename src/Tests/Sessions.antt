-- ===== src/Tests/Sessions.antt =====
-- The theorems on tokens, registration and login at one account.
use stok_sync.Common.{
  List, Option, none, some, [], ◌∷◌, ◌&&◌, String, if◌then◌else◌, ◌==◌, ◌≡◌, refl, arith,
}
use stok_sync.Common.Int.{pos, ◌+ℤ◌, ◌-ℤ◌}
use stok_sync.Common.Text.{str_eq, trim_space}
use stok_sync.Errors.{ok, err, Error, AuthError, auth_error}
use stok_sync.Db.Types.{Database, RefreshToken}
use stok_sync.Db.Tx.{with_tx_result, statement, select_one}
use stok_sync.Db.Tx.Ends.{Commits}
use stok_sync.Db.Auth.{
  get_refresh_token_for_update, get_refresh_token_for_update_sql, mark_refresh_token_rotated,
  mark_refresh_token_rotated_sql, insert_refresh_token, insert_refresh_token_sql,
}
use stok_sync.Auth.External.{Bytes, Libraries, JwtPayload}
use stok_sync.Auth.Token.{
  TokenManager, access_header, seconds, issue_access_token, validate_access_token, sign,
}
use stok_sync.Auth.Token.RoundTrip.{issue_access_token-validate, issued_claims}
use stok_sync.Auth.Token.{claims_of, claims_of_parts, split_dots}
use stok_sync.Auth.Token.Signed.{Signed, validate_access_token-Signed}
use stok_sync.Auth.{
  Service, Draws, Session, LoginInput, refresh, revoke_token, login, register,
  refresh_in_transaction, is_refresh_token_shape_valid, new_session,
}
use stok_sync.Auth.Refresh.{Refreshed, refresh-Refreshed}
use stok_sync.Auth.Reuse.{revoke_token-refresh, CutOff}
use stok_sync.Auth.Later.{AuthCall, after_auth_calls, refresh_again}
use stok_sync.Auth.Accounts.{LoggedIn, login-LoggedIn, Registered, register-Registered}
use stok_sync.Tests.World.{store}

abbrev payload : JwtPayload
payload = record {
  issuer = "stoksync-api";
  audience = "stoksync-client";
  subject = "u7";
  device_id = "d3";
  token_id = "t9";
  token_use = "access";
  issued_at = pos 3200;
  expires = pos 4100;
}

abbrev encode : Bytes → String
encode [] = ""
encode (x ∷ []) = "h"
encode (x ∷ y ∷ []) = "p"
encode (x ∷ y ∷ z ∷ rest) = "s"

abbrev eight : Bytes → Bytes
eight rest = 0 ∷ 0 ∷ 0 ∷ 0 ∷ 0 ∷ 0 ∷ 0 ∷ 0 ∷ rest

abbrev decode : String → Option Bytes
decode s =
    if str_eq s "h"
    then some (1 ∷ [])
    else if str_eq s "p"
    then some (2 ∷ 2 ∷ [])
    else if str_eq s "s"
    then some (3 ∷ 3 ∷ 3 ∷ [])
    else some (eight (eight (eight (eight []))))

-- One encoding of the values that the runs use.
abbrev lib : Libraries
lib = record {
  to_lower = λ s. s;
  sql_lower = λ s. s;
  parse_address = λ s. some s;
  generate_from_password = λ p. some "#secret12";
  compare_hash_and_password = λ hash p. str_eq hash "#secret12" && str_eq p "secret12";
  sha256_hex = λ raw. raw;
  hmac = λ key text. 3 ∷ 3 ∷ 3 ∷ [];
  encode_to_string = encode;
  decode_string = decode;
  marshal_header = λ h. 1 ∷ [];
  unmarshal_header = λ bytes. some access_header;
  marshal_payload = λ p. 2 ∷ 2 ∷ [];
  unmarshal_payload = λ bytes. some payload;
  uuid_string = λ id. if id == 7 then "u7" else if id == 3 then "d3" else "t9";
  uuid_parse = λ s. if str_eq s "u7" then some 7 else if str_eq s "d3" then some 3 else some 9;
}

abbrev manager : TokenManager
manager = record {
  secret = "0123456789abcdef0123456789abcdef";
  issuer = "stoksync-api";
  audience = "stoksync-client";
  ttl = pos 900000000;
}

issue_access_token-validate_example :
    (text : String) × (issue_access_token lib manager (pos 62135600000500000) 9 7 3
      ≡ ok (text, pos 62135600900000000))
    × (validate_access_token lib manager (pos 62135600899999999) text
        ≡ ok (issued_claims lib manager (pos 62135600000500000) 9 7 3))
unfolding seconds ◌+ℤ◌ ◌-ℤ◌
issue_access_token-validate_example =
    issue_access_token-validate lib manager (pos 62135600000500000) 9 7 3 (pos 62135600899999999)
      (record {
        head_back = (refl, refl, refl);
        body_back = (refl, refl, refl);
        seal_back = (refl, refl, refl);
        header_back = refl;
        payload_back = refl;
        user_back = refl;
        device_back = refl;
        token_back = refl;
      })
      refl refl refl (omega arith) (omega arith) (omega arith) (omega arith)

validates :
    validate_access_token lib manager (pos 62135600000500000) "h.p.s"
    ≡ ok (issued_claims lib manager (pos 62135600000500000) 9 7 3)
unfolding validate_access_token split_dots claims_of_parts claims_of seconds ◌+ℤ◌ ◌-ℤ◌
validates = refl

validate_access_token-Signed_example :
    Signed lib manager
      (pos 62135600000500000)
      "h.p.s"
      (issued_claims lib manager (pos 62135600000500000) 9 7 3)
validate_access_token-Signed_example =
    validate_access_token-Signed lib manager (pos 62135600000500000) "h.p.s"
      (issued_claims lib manager (pos 62135600000500000) 9 7 3) validates

abbrev service : Service
service = record { lib = lib; tokens = manager; refresh_token_ttl = pos 7776000000000 }

abbrev first_raw : String
first_raw = "0123456789012345678901234567890123456789abc"

abbrev second_raw : String
second_raw = "0123456789012345678901234567890123456789xyz"

abbrev third_raw : String
third_raw = "0123456789012345678901234567890123456789uvw"

abbrev draws : Draws
draws = record { refresh_token = some second_raw; user_id = 8; row_id = 52; access_token_id = 9 }

abbrev first_token : RefreshToken
first_token = record {
  id = 51;
  user_id = 7;
  device_id = 3;
  token_hash = first_raw;
  expires_at = pos 62135690000000000;
  revoked_at = none;
  rotated_at = none;
  created_at = pos 60;
}

abbrev signed_in : Database
signed_in = record store { refresh_tokens = first_token ∷ [] }

refresh-Refreshed_example :
    Refreshed service
      (pos 62135600000500000)
      draws
      first_raw
      signed_in
      (refresh service (pos 62135600000500000) draws first_raw signed_in)
unfolding trim_space
refresh-Refreshed_example =
    refresh-Refreshed service (pos 62135600000500000) draws first_raw signed_in

abbrev renewed : Session
renewed = record {
  user_id = 7;
  device_id = 3;
  access_token = "h.p.s";
  access_token_expires_at = pos 62135600900000000;
  refresh_token = second_raw;
}

abbrev renewed_store : Database
renewed_store = (refresh service (pos 62135600000500000) draws first_raw signed_in).1

refreshes :
    refresh service (pos 62135600000500000) draws first_raw signed_in ≡ (ok renewed, renewed_store)
unfolding refresh refresh_in_transaction trim_space with_tx_result statement select_one
    get_refresh_token_for_update get_refresh_token_for_update_sql mark_refresh_token_rotated
    mark_refresh_token_rotated_sql insert_refresh_token insert_refresh_token_sql
    is_refresh_token_shape_valid new_session issue_access_token sign seconds ◌+ℤ◌ ◌-ℤ◌
refreshes = refl

abbrev credentials : LoginInput
credentials = record {
  email = "a@b.c";
  password = "secret12";
  device_id = 3;
  device_name = "phone";
  platform = "android";
}

-- A login on the other device, the logout of the new token, and a stray token.
abbrev in_between : List AuthCall
in_between =
    AuthCall.logs_in (pos 62135600000500001)
      (record draws { refresh_token = some third_raw; row_id = 53 })
      (record credentials { device_id = 4 })
    ∷ AuthCall.revokes second_raw
    ∷ AuthCall.refreshes (pos 62135600000500002) draws "stray"
    ∷ []

refresh_again_example :
    (db'' : Database) × (refresh service
        (pos 62135600000600000)
        draws
        first_raw
        (after_auth_calls service in_between renewed_store)
      ≡ (err (auth_error AuthError.refresh_token_reuse), db''))
    × CutOff service 7 3 db''
refresh_again_example =
    refresh_again service (pos 62135600000500000) (pos 62135600000600000) draws draws first_raw
      in_between signed_in renewed_store renewed refreshes

revoke_token-refresh_example :
    (db' : Database) × (revoke_token service first_raw signed_in ≡ (ok tt, db'))
    × (e : Error) × (db'' : Database) × (refresh service (pos 62135600000600000) draws first_raw db'
        ≡ (err e, db''))
revoke_token-refresh_example =
    revoke_token-refresh service (pos 62135600000600000) draws first_raw signed_in

login-LoggedIn_example :
    Commits
      (LoggedIn service (pos 62135600000500000) draws credentials store)
      store
      (login service (pos 62135600000500000) draws credentials store)
login-LoggedIn_example = login-LoggedIn service (pos 62135600000500000) draws credentials store

abbrev newcomer : LoginInput
newcomer = record credentials { email = "d@e.f"; device_id = 5 }

register-Registered_example :
    Commits
      (Registered service (pos 62135600000500000) draws newcomer store)
      store
      (register service (pos 62135600000500000) draws newcomer store)
register-Registered_example =
    register-Registered service (pos 62135600000500000) draws newcomer store
