-- ===== src/Db/Auth.antt =====
-- The statements of server/internal/db/auth_queries.go, with the constraints of server/migrations.
-- `lower` is PostgreSQL's function of that name.
use Prim.Native.Char.{code}
use stok_sync.Common.{
  Option, none, some, Bool, true, not, ◌&&◌, ◌∷◌, String, is_some, if◌then◌else◌, ◌==◌, ℕ,
}
use stok_sync.Common.Int.{pos}
use stok_sync.Common.Text.{str_eq}
use stok_sync.Common.Lists.{length, find, exists_row, update_rows, where_rows}
use stok_sync.Errors.{Uuid}
use stok_sync.Db.Types.{
  Database, User, CreateUserParams, Device, RegisterDeviceParams, RefreshToken,
  CreateRefreshTokenParams,
}
use stok_sync.Db.Tx.{Outcome, row, no_row, violation, Tx, statement, select_one}
use stok_sync.Db.Products.{owns_device}

-- `btrim(text) = ''`.
abbrev blank : String → Bool
blank String.[] = true
blank (String.◌∷◌ c s) = code c == 32 && blank s

abbrev pub account : CreateUserParams → Database → User
account params db = record {
  id = params.id;
  email = params.email;
  password_hash = params.password_hash;
  created_at = db.clock;
  updated_at = db.clock;
}

-- ON CONFLICT (lower(email)) DO NOTHING returns no row.
unfoldable pub insert_user_sql : (String → String) → CreateUserParams → Database → Outcome User
insert_user_sql lower params db =
    if blank params.email
    then violation "users_email_nonempty_check"
    else if blank params.password_hash
    then violation "users_password_hash_nonempty_check"
    else if exists_row (λ u. str_eq (lower u.email) (lower params.email)) db.users
    then no_row
    else if exists_row (λ u. u.id == params.id) db.users
    then violation "users_pkey"
    else row (account params db) (record db { users = account params db ∷ db.users })

unfoldable pub get_user_by_email_sql : (String → String) → String → Database → Option User
get_user_by_email_sql lower email db = find (λ u. str_eq (lower u.email) email) db.users

abbrev pub first_seen : RegisterDeviceParams → Database → Device
first_seen params db = record {
  id = params.id;
  user_id = params.user_id;
  name = params.name;
  platform = params.platform;
  last_seen_at = some db.clock;
  last_ack_seq = pos 0;
  created_at = db.clock;
}

abbrev pub seen_again : RegisterDeviceParams → Database → Device → Device
seen_again params db d = record d {
  name = params.name;
  platform = params.platform;
  last_seen_at = some db.clock;
}

abbrev pub of_device_id : Uuid → Device → Bool
of_device_id id d = d.id == id

unfoldable pub register_device_sql : RegisterDeviceParams → Database → Outcome Device
register_device_sql params db = elim (find (of_device_id params.id) db.devices) [
  | none ↦
      if exists_row (λ u. u.id == params.user_id) db.users
      then row (first_seen params db) (record db { devices = first_seen params db ∷ db.devices })
      else violation "devices_user_id_fkey"
  | some d ↦
      if d.user_id == params.user_id
      then row (seen_again params db d) (record db {
        devices = update_rows (of_device_id params.id) (seen_again params db) db.devices;
      })
      else no_row
]

abbrev pub of_hash : String → RefreshToken → Bool
of_hash hash t = str_eq t.token_hash hash

unfoldable pub get_refresh_token_for_update_sql : String → Database → Option RefreshToken
get_refresh_token_for_update_sql hash db = find (of_hash hash) db.refresh_tokens

abbrev pub fresh_token : CreateRefreshTokenParams → Database → RefreshToken
fresh_token params db = record {
  id = params.id;
  user_id = params.user_id;
  device_id = params.device_id;
  token_hash = params.token_hash;
  expires_at = params.expires_at;
  revoked_at = none;
  rotated_at = none;
  created_at = db.clock;
}

unfoldable pub insert_refresh_token_sql : CreateRefreshTokenParams → Database → Outcome RefreshToken
insert_refresh_token_sql params db =
    if blank params.token_hash
    then violation "refresh_tokens_token_hash_nonempty_check"
    else if exists_row (λ t. t.id == params.id) db.refresh_tokens
    then violation "refresh_tokens_pkey"
    else if exists_row (of_hash params.token_hash) db.refresh_tokens
    then violation "refresh_tokens_token_hash_uq"
    else if not (owns_device params.user_id params.device_id db.devices)
    then violation "refresh_tokens_device_owner_fkey"
    else row (fresh_token params db)
        (record db { refresh_tokens = fresh_token params db ∷ db.refresh_tokens })

abbrev pub is_active : RefreshToken → Bool
is_active t = not (is_some t.revoked_at)

abbrev pub active_token : Uuid → RefreshToken → Bool
active_token id t = t.id == id && is_active t

abbrev pub rotated : Database → RefreshToken → RefreshToken
rotated db t = record t { revoked_at = some db.clock; rotated_at = some db.clock }

unfoldable pub mark_refresh_token_rotated_sql : Uuid → Database → Outcome RefreshToken
mark_refresh_token_rotated_sql id db = elim (find (active_token id) db.refresh_tokens) [
  | none ↦ no_row
  | some t ↦
      row (rotated db t) (record db {
        refresh_tokens = update_rows (active_token id) (rotated db) db.refresh_tokens;
      })
]

-- COALESCE(revoked_at, CURRENT_TIMESTAMP).
abbrev pub revoked : Database → RefreshToken → RefreshToken
revoked db t = record t {
  revoked_at = elim t.revoked_at [ none ↦ some db.clock | some at ↦ some at ];
}

abbrev pub of_token_id : Uuid → RefreshToken → Bool
of_token_id id t = t.id == id

unfoldable pub revoke_refresh_token_sql : Uuid → Database → Outcome RefreshToken
revoke_refresh_token_sql id db = elim (find (of_token_id id) db.refresh_tokens) [
  | none ↦ no_row
  | some t ↦
      row (revoked db t)
        (record db { refresh_tokens = update_rows (of_token_id id) (revoked db) db.refresh_tokens })
]

abbrev pub active_on : Uuid → Uuid → RefreshToken → Bool
active_on user device t = t.user_id == user && t.device_id == device && is_active t

abbrev pub cut_off : Database → RefreshToken → RefreshToken
cut_off db t = record t { revoked_at = some db.clock }

-- With the number of the updated rows.
unfoldable pub revoke_device_refresh_tokens_sql : Uuid → Uuid → Database → Outcome ℕ
revoke_device_refresh_tokens_sql user device db =
    row (length (where_rows (active_on user device) db.refresh_tokens)) (record db {
      refresh_tokens = update_rows (active_on user device) (cut_off db) db.refresh_tokens;
    })

unfoldable pub insert_user : (String → String) → CreateUserParams → Tx User
unfolding statement insert_user_sql
insert_user lower params = statement (insert_user_sql lower params)

unfoldable pub get_user_by_email : (String → String) → String → Tx User
unfolding select_one get_user_by_email_sql
get_user_by_email lower email = select_one (get_user_by_email_sql lower email)

unfoldable pub register_device : RegisterDeviceParams → Tx Device
unfolding statement register_device_sql
register_device params = statement (register_device_sql params)

unfoldable pub get_refresh_token_for_update : String → Tx RefreshToken
unfolding select_one get_refresh_token_for_update_sql
get_refresh_token_for_update hash = select_one (get_refresh_token_for_update_sql hash)

unfoldable pub insert_refresh_token : CreateRefreshTokenParams → Tx RefreshToken
unfolding statement insert_refresh_token_sql
insert_refresh_token params = statement (insert_refresh_token_sql params)

unfoldable pub mark_refresh_token_rotated : Uuid → Tx RefreshToken
unfolding statement mark_refresh_token_rotated_sql
mark_refresh_token_rotated id = statement (mark_refresh_token_rotated_sql id)

unfoldable pub revoke_refresh_token : Uuid → Tx RefreshToken
unfolding statement revoke_refresh_token_sql
revoke_refresh_token id = statement (revoke_refresh_token_sql id)

unfoldable pub revoke_device_refresh_tokens : Uuid → Uuid → Tx ℕ
unfolding statement revoke_device_refresh_tokens_sql
revoke_device_refresh_tokens user device = statement (revoke_device_refresh_tokens_sql user device)
