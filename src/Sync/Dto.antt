-- ===== src/Sync/Dto.antt =====
-- The wire types of server/internal/sync/dto.go, and what the package calls of encoding/json.
use stok_sync.Common.{Option, String, List, Bool}
use stok_sync.Common.Int.{ℤ}
use stok_sync.Errors.{Uuid, Time, StocktakeIntent}

pub record Operation : Type 0 where
  pub op_id : Uuid
  pub op : String
  pub base_version : Option ℤ
  pub payload : String

pub record AddMovementPayload : Type 0 where
  pub id : Uuid
  pub product_id : Uuid
  pub delta : ℤ
  pub kind : String
  pub note : Option String
  pub occurred_at : Time
  pub raw_occurred_at : Option Time
  pub clock_offset_ms : ℤ
  pub counted_qty : Option ℤ
  pub reverses_id : Option Uuid
  pub device_id : Option Uuid

pub record UpsertProductPayload : Type 0 where
  pub id : Uuid
  pub barcode : Option String
  pub sku : Option String
  pub name : String
  pub description : Option String
  pub unit : String
  pub category : Option String
  pub min_stock : Option ℤ

pub record DeleteProductPayload : Type 0 where
  pub id : Uuid
  pub deleted_at : Option Time

-- The dynamic type of `DecodePayload`'s result.
pub data Payload : Type 0 where
  add_movement : AddMovementPayload → Payload
  upsert_product : UpsertProductPayload → Payload
  delete_product : DeleteProductPayload → Payload

pub record StocktakeOutcome : Type 0 where
  pub product_id : Uuid
  pub canonical_balance : ℤ
  pub canonical : StocktakeIntent
  pub incoming : StocktakeIntent
  pub displaced : List StocktakeIntent

-- An empty reason and an empty server state are the omitted ones.
pub record OperationResult : Type 0 where
  pub op_id : Uuid
  pub status : String
  pub seq : Option ℤ
  pub reason : String
  pub server_state : String
  pub stocktake_outcome : Option StocktakeOutcome

pub record ChangeEntry : Type 0 where
  pub seq : ℤ
  pub entity : String
  pub op : String
  pub payload : String
  pub origin_device_id : Option Uuid
  pub created_at : Option Time

pub record SyncResponse : Type 0 where
  pub schema_version : ℤ
  pub results : List OperationResult
  pub changes : List ChangeEntry
  pub next_cursor : ℤ
  pub has_more : Bool
  pub server_time : Time

pub record SyncRequest : Type 0 where
  pub schema_version : ℤ
  pub device_id : Uuid
  pub cursor : ℤ
  pub max_changes : ℤ
  pub client_time : Time
  pub ops : Option (List Operation)

pub record MovementChangePayload : Type 0 where
  pub id : Uuid
  pub product_id : Uuid
  pub delta : ℤ
  pub kind : String
  pub note : Option String
  pub occurred_at : Time
  pub raw_occurred_at : Time
  pub clock_offset_ms : ℤ
  pub counted_qty : Option ℤ
  pub reverses_id : Option Uuid
  pub device_id : Uuid
  pub server_created_at : Time
  pub stocktake_outcome : Option StocktakeOutcome

pub record ProductChangePayload : Type 0 where
  pub id : Uuid
  pub barcode : Option String
  pub sku : Option String
  pub name : String
  pub description : Option String
  pub unit : String
  pub category : Option String
  pub min_stock : Option ℤ
  pub version : ℤ
  pub updated_at : Time
  pub updated_by_device_id : Uuid
  pub deleted_at : Option Time
  pub created_at : Time

-- encoding/json at the types that the package encodes and strictly decodes; `none` is an error.
pub record Codec : Type 0 where
  pub is_object : String → Bool
  pub decode_add_movement : String → Option AddMovementPayload
  pub decode_upsert_product : String → Option UpsertProductPayload
  pub decode_delete_product : String → Option DeleteProductPayload
  pub decode_result : String → Option OperationResult
  pub marshal_result : OperationResult → Option String
  pub marshal_product : ProductChangePayload → Option String
  pub marshal_movement : MovementChangePayload → Option String
  -- The first value of a request's body, and whether nothing follows it.
  pub decode_request : String → Option SyncRequest
  pub ends_after_value : String → Bool
  pub encode_response : SyncResponse → Option String
