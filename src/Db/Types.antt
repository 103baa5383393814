-- ===== src/Db/Types.antt =====
-- The rows of server/internal/db/models.go and auth_models.go, and the parameters of its statements.
use stok_sync.Common.{Option, String, List}
use stok_sync.Common.Int.{ℤ}
use stok_sync.Errors.{Uuid, Time}

pub record Product : Type 0 where
  pub id : Uuid
  pub user_id : Uuid
  pub barcode : Option String
  pub sku : Option String
  pub name : String
  pub description : Option String
  pub unit : String
  pub category : Option String
  pub min_stock : Option ℤ
  pub version : ℤ
  pub updated_at : Time
  pub updated_by_device_id : Uuid
  pub deleted_at : Option Time
  pub created_at : Time

pub record CreateProductParams : Type 0 where
  pub id : Uuid
  pub user_id : Uuid
  pub barcode : Option String
  pub sku : Option String
  pub name : String
  pub description : Option String
  pub unit : String
  pub category : Option String
  pub min_stock : Option ℤ
  pub updated_by_device_id : Uuid

pub record UpdateProductParams : Type 0 where
  pub id : Uuid
  pub user_id : Uuid
  pub barcode : Option String
  pub sku : Option String
  pub name : String
  pub description : Option String
  pub unit : String
  pub category : Option String
  pub min_stock : Option ℤ
  pub base_version : ℤ
  pub updated_by_device_id : Uuid

pub record SoftDeleteProductParams : Type 0 where
  pub id : Uuid
  pub user_id : Uuid
  pub base_version : ℤ
  pub updated_by_device_id : Uuid

pub record StockMovement : Type 0 where
  pub id : Uuid
  pub user_id : Uuid
  pub product_id : Uuid
  pub delta : ℤ
  pub kind : String
  pub note : Option String
  pub occurred_at : Time
  pub raw_occurred_at : Time
  pub clock_offset_ms : ℤ
  pub counted_qty : Option ℤ
  pub reverses_id : Option Uuid
  pub device_id : Uuid
  pub server_created_at : Time

pub record CreateStockMovementParams : Type 0 where
  pub id : Uuid
  pub user_id : Uuid
  pub product_id : Uuid
  pub delta : ℤ
  pub kind : String
  pub note : Option String
  pub occurred_at : Time
  pub raw_occurred_at : Time
  pub clock_offset_ms : ℤ
  pub counted_qty : Option ℤ
  pub reverses_id : Option Uuid
  pub device_id : Uuid

pub record ProductBalance : Type 0 where
  pub product_id : Uuid
  pub qty : ℤ
  pub last_movement_at : Option Time
  pub updated_at : Time

pub record LedgerBalance : Type 0 where
  pub product_id : Uuid
  pub qty : ℤ
  pub last_movement_at : Option Time

pub record UpsertProductBalanceParams : Type 0 where
  pub user_id : Uuid
  pub product_id : Uuid
  pub qty : ℤ
  pub last_movement_at : Option Time

pub record IncrementProductBalanceParams : Type 0 where
  pub user_id : Uuid
  pub product_id : Uuid
  pub delta : ℤ
  pub occurred_at : Time

pub record ChangeLogEntry : Type 0 where
  pub seq : ℤ
  pub user_id : Uuid
  pub entity : String
  pub entity_id : Uuid
  pub op : String
  pub payload : String
  pub origin_device_id : Option Uuid
  pub created_at : Time

pub record AppendChangeLogParams : Type 0 where
  pub user_id : Uuid
  pub entity : String
  pub entity_id : Uuid
  pub op : String
  pub payload : String
  pub origin_device_id : Option Uuid

pub record InsertChangeLogParams : Type 0 where
  pub seq : ℤ
  pub user_id : Uuid
  pub entity : String
  pub entity_id : Uuid
  pub op : String
  pub payload : String
  pub origin_device_id : Option Uuid

pub record SyncOperation : Type 0 where
  pub device_id : Uuid
  pub op_id : Uuid
  pub user_id : Uuid
  pub status : String
  pub reason : Option String
  pub response : String
  pub received_at : Time
  pub completed_at : Option Time

pub record InsertSyncOperationParams : Type 0 where
  pub device_id : Uuid
  pub op_id : Uuid
  pub user_id : Uuid
  pub status : String
  pub reason : Option String
  pub response : String
  pub completed_at : Option Time

pub record UpdateSyncOperationParams : Type 0 where
  pub device_id : Uuid
  pub op_id : Uuid
  pub user_id : Uuid
  pub status : String
  pub reason : Option String
  pub response : String
  pub completed_at : Option Time

pub record ListChangeLogParams : Type 0 where
  pub user_id : Uuid
  pub after_seq : ℤ
  pub max_changes : ℤ

pub record User : Type 0 where
  pub id : Uuid
  pub email : String
  pub password_hash : String
  pub created_at : Time
  pub updated_at : Time

pub record CreateUserParams : Type 0 where
  pub id : Uuid
  pub email : String
  pub password_hash : String

pub record Device : Type 0 where
  pub id : Uuid
  pub user_id : Uuid
  pub name : String
  pub platform : String
  pub last_seen_at : Option Time
  pub last_ack_seq : ℤ
  pub created_at : Time

pub record RegisterDeviceParams : Type 0 where
  pub id : Uuid
  pub user_id : Uuid
  pub name : String
  pub platform : String

pub record RefreshToken : Type 0 where
  pub id : Uuid
  pub user_id : Uuid
  pub device_id : Uuid
  pub token_hash : String
  pub expires_at : Time
  pub revoked_at : Option Time
  pub rotated_at : Option Time
  pub created_at : Time

pub record CreateRefreshTokenParams : Type 0 where
  pub id : Uuid
  pub user_id : Uuid
  pub device_id : Uuid
  pub token_hash : String
  pub expires_at : Time

-- The tables. `last_seq` is the one row of
-- `sync_seq_counter`, and `clock` is CURRENT_TIMESTAMP of the running transaction. `jsonb` is
-- PostgreSQL's text of a value of a JSONB column, from the text that was stored: it has the same
-- value, with its own order of keys and white space.
pub record Database : Type 0 where
  pub clock : Time
  pub jsonb : String → String
  pub users : List User
  pub devices : List Device
  pub refresh_tokens : List RefreshToken
  pub products : List Product
  pub movements : List StockMovement
  pub balances : List ProductBalance
  pub last_seq : ℤ
  pub change_log : List ChangeLogEntry
  pub sync_ops : List SyncOperation
