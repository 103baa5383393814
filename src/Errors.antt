-- ===== src/Errors.antt =====
-- The error values of the packages products, movements, sync, auth and snapshot, and the outcomes of a statement.
-- An `error` of Go is a value of `Error`; `errors.Is` is a match on its constructor.
use stok_sync.Common.{ℕ, List, String}
use stok_sync.Common.Int.{ℤ}

-- A `uuid.UUID` as the number that its 16 bytes write in big-endian order: `uuid.Nil` is 0, and the
-- order of the canonical texts is the order of the numbers.
abbrev pub Uuid : Type 0
Uuid = ℕ

-- A `time.Time` as an instant: microseconds since the zero time, PostgreSQL's resolution.
-- `UTC()` keeps the instant, and `IsZero()` is a comparison with `zero_time`.
abbrev pub Time : Type 0
Time = ℤ

abbrev pub zero_time : Time
zero_time = ℤ.pos 0

pub data ProductError : Type 0 where
  invalid_input product_not_found product_deleted version_conflict barcode_conflict : ProductError
  ownership_violation product_conflict : ProductError

pub record StocktakeIntent : Type 0 where
  pub movement_id : Uuid
  pub product_id : Uuid
  pub delta : ℤ
  pub counted_qty : ℤ
  pub occurred_at : Time
  pub device_id : Uuid

pub record StocktakeResolution : Type 0 where
  pub product_id : Uuid
  pub canonical_balance : ℤ
  pub canonical : StocktakeIntent
  pub incoming : StocktakeIntent
  pub displaced : List StocktakeIntent

pub data MovementError : Type 0 where
  invalid_input invalid_delta invalid_kind product_not_found product_deleted : MovementError
  ownership_violation movement_not_found invalid_reversal movement_conflict : MovementError
  invalid_stocktake : MovementError
  stocktake_displaced : StocktakeResolution → MovementError

pub data SyncError : Type 0 where
  invalid_service invalid_identity device_not_registered invalid_change_feed_cursor : SyncError
  invalid_change_feed_limit invalid_operation invalid_stored_operation_response : SyncError

pub data AuthError : Type 0 where
  invalid_credentials invalid_input email_taken device_ownership invalid_refresh_token : AuthError
  refresh_token_expired refresh_token_reuse invalid_access_token : AuthError
  password_empty password_too_long : AuthError

pub data SnapshotError : Type 0 where
  invalid_user snapshot_too_large : SnapshotError

-- `pg_error` carries the violated constraint's name (`pgErr.ConstraintName`); `tx_aborted` is
-- PostgreSQL's refusal of every statement after an error, until a rollback. `plain` is an error
-- made where it is returned, with its text.
pub data Error : Type 0 where
  no_rows tx_aborted no_savepoint row_limit encoding_failed : Error
  pg_error plain : String → Error
  auth_error : AuthError → Error
  snapshot_error : SnapshotError → Error
  product_error : ProductError → Error
  movement_error : MovementError → Error
  sync_error : SyncError → Error

pub data Result {ℓ} (A : Type ℓ) : Type ℓ where
  ok : A → Result A
  err : Error → Result A
