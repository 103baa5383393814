-- ===== src/Snapshot.antt =====
-- server/internal/snapshot/service.go: the bootstrap of a full replica.
pub mod Complete
pub mod Cursor
pub mod Handler
use stok_sync.Common.{Bool, true, false, ◌&&◌, ◌||◌, List, if◌then◌else◌, ◌==◌}
use stok_sync.Common.Int.{ℤ, pos, leb_ℤ, eq_ℤ, max_int32_value}
use stok_sync.Errors.{Uuid, Time, SnapshotError, snapshot_error, Result, ok, err}
use stok_sync.Db.Types.{Database, Product, StockMovement, LedgerBalance}
use stok_sync.Db.Tx.{Tx, pure, fail, ◌>>=◌, with_snapshot_result}
use stok_sync.Db.ChangeLog.{current_change_sequence}
use stok_sync.Db.Snapshot.{
  list_snapshot_products, list_snapshot_movements, list_snapshot_balances, current_database_time,
}

pub record Limits : Type 0 where
  pub max_products : ℤ
  pub max_movements : ℤ
  pub max_response_bytes : ℤ
  pub max_request_bytes : ℤ

unfoldable pub default_limits : Limits
default_limits = record {
  max_products = pos 10000;
  max_movements = pos 100000;
  max_response_bytes = pos 33554432;
  max_request_bytes = pos 4096;
}

abbrev or_default : ℤ → ℤ → ℤ
or_default n d = if eq_ℤ n (pos 0) then d else n

unfoldable pub with_defaults : Limits → Limits
unfolding default_limits
with_defaults l = record {
  max_products = or_default l.max_products default_limits.max_products;
  max_movements = or_default l.max_movements default_limits.max_movements;
  max_response_bytes = or_default l.max_response_bytes default_limits.max_response_bytes;
  max_request_bytes = or_default l.max_request_bytes default_limits.max_request_bytes;
}

abbrev pub out_of_rows : ℤ → Bool
out_of_rows n = leb_ℤ n (pos 0) || leb_ℤ max_int32_value n

-- `validate` returns nil.
unfoldable pub is_valid_limits : Limits → Bool
is_valid_limits l =
    if out_of_rows l.max_products || out_of_rows l.max_movements
    then false
    else if leb_ℤ l.max_response_bytes (pos 0) || leb_ℤ l.max_request_bytes (pos 0)
    then false
    else true

pub record Snapshot : Type 0 where
  pub products : List Product
  pub movements : List StockMovement
  pub balances : List LedgerBalance
  pub cursor : ℤ
  pub server_time : Time

-- `if truncated { return ErrSnapshotTooLarge }`.
abbrev pub untruncated : {A : Type 0} → List A × Bool → Tx (List A)
untruncated (rows, truncated) =
    if truncated then fail (snapshot_error SnapshotError.snapshot_too_large) else pure rows

unfoldable pub read_snapshot : Limits → Uuid → Tx Snapshot
read_snapshot limits user = do
  products ← list_snapshot_products user limits.max_products >>= untruncated
  movements ← list_snapshot_movements user limits.max_movements >>= untruncated
  balances ← list_snapshot_balances user limits.max_products >>= untruncated
  cursor ← current_change_sequence
  server_time ← current_database_time
  pure (record {
    products = products;
    movements = movements;
    balances = balances;
    cursor = cursor;
    server_time = server_time;
  })

unfoldable pub get_snapshot : Limits → Uuid → Database → Result Snapshot × Database
unfolding read_snapshot with_snapshot_result
get_snapshot limits user db =
    if user == 0
    then (err (snapshot_error SnapshotError.invalid_user), db)
    else with_snapshot_result (read_snapshot limits user) db
