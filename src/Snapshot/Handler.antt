-- ===== src/Snapshot/Handler.antt =====
-- server/internal/snapshot/handler.go: the response of a snapshot and its bounded encoding.
pub mod Bounded
use stok_sync.Common.{
  Option, none, some, Bool, true, false, not, ◌||◌, List, [], ◌∷◌, ◌++◌, map, String, if◌then◌else◌,
  ◌==◌, ℕ,
}
use stok_sync.Common.Int.{ℤ, pos, pos_part, ◌-ℤ◌, leb_ℤ, ltb_ℤ}
use stok_sync.Common.Text.{str_eq}
use stok_sync.Common.Lists.{length, take}
use stok_sync.Errors.{Uuid, Time, SnapshotError, snapshot_error, Error, Result, ok, err}
use stok_sync.Db.Types.{Database, Product, StockMovement, LedgerBalance}
use stok_sync.Sync.Operations.{Identity}
use stok_sync.Snapshot.{Limits, Snapshot, get_snapshot}

pub record SnapshotProduct : Type 0 where
  pub id : Uuid
  pub barcode : Option String
  pub sku : Option String
  pub name : String
  pub description : Option String
  pub unit : String
  pub category : Option String
  pub min_stock : Option ℤ
  pub version : ℤ
  pub updated_at : Time
  pub updated_by_device_id : Uuid
  pub deleted_at : Option Time
  pub created_at : Time

pub record SnapshotMovement : Type 0 where
  pub id : Uuid
  pub product_id : Uuid
  pub delta : ℤ
  pub kind : String
  pub note : Option String
  pub occurred_at : Time
  pub raw_occurred_at : Time
  pub clock_offset_ms : ℤ
  pub counted_qty : Option ℤ
  pub reverses_id : Option Uuid
  pub device_id : Uuid
  pub server_created_at : Time

pub record SnapshotBalance : Type 0 where
  pub product_id : Uuid
  pub qty : ℤ
  pub last_movement_at : Option Time

pub record SnapshotTombstone : Type 0 where
  pub id : Uuid
  pub version : ℤ
  pub deleted_at : Time
  pub updated_at : Time
  pub updated_by_device_id : Uuid

pub record SnapshotResponse : Type 0 where
  pub schema_version : ℤ
  pub products : List SnapshotProduct
  pub movements : List SnapshotMovement
  pub balances : List SnapshotBalance
  pub tombstones : List SnapshotTombstone
  pub cursor : ℤ
  pub server_time : Time

abbrev product_row : Product → SnapshotProduct
product_row p = record {
  id = p.id;
  barcode = p.barcode;
  sku = p.sku;
  name = p.name;
  description = p.description;
  unit = p.unit;
  category = p.category;
  min_stock = p.min_stock;
  version = p.version;
  updated_at = p.updated_at;
  updated_by_device_id = p.updated_by_device_id;
  deleted_at = p.deleted_at;
  created_at = p.created_at;
}

abbrev movement_row : StockMovement → SnapshotMovement
movement_row m = record {
  id = m.id;
  product_id = m.product_id;
  delta = m.delta;
  kind = m.kind;
  note = m.note;
  occurred_at = m.occurred_at;
  raw_occurred_at = m.raw_occurred_at;
  clock_offset_ms = m.clock_offset_ms;
  counted_qty = m.counted_qty;
  reverses_id = m.reverses_id;
  device_id = m.device_id;
  server_created_at = m.server_created_at;
}

abbrev balance_row : LedgerBalance → SnapshotBalance
balance_row b = record {
  product_id = b.product_id;
  qty = b.qty;
  last_movement_at = b.last_movement_at;
}

abbrev tombstone_of : Product → Option Time → List SnapshotTombstone
tombstone_of p none = []
tombstone_of p (some at) =
    record {
      id = p.id;
      version = p.version;
      deleted_at = at;
      updated_at = p.updated_at;
      updated_by_device_id = p.updated_by_device_id;
    }
    ∷ []

abbrev pub tombstones_of : List Product → List SnapshotTombstone
tombstones_of [] = []
tombstones_of (p ∷ ps) = tombstone_of p p.deleted_at ++ tombstones_of ps

unfoldable pub response_from_snapshot : Snapshot → SnapshotResponse
response_from_snapshot s = record {
  schema_version = pos 1;
  products = map product_row s.products;
  movements = map movement_row s.movements;
  balances = map balance_row s.balances;
  tombstones = tombstones_of s.products;
  cursor = s.cursor;
  server_time = s.server_time;
}

-- `boundedResponseBuffer`: the bytes that it holds, its bound, and whether a write passed the bound.
pub record BoundedBuffer : Type 0 where
  pub bytes : List ℕ
  pub max : ℤ
  pub exceeded : Bool

-- The buffer after `Write`; it returns an error exactly when it marks the buffer.
unfoldable pub write : List ℕ → BoundedBuffer → BoundedBuffer
write value b =
    let remaining = b.max -ℤ pos (length b.bytes) in
    if leb_ℤ remaining (pos 0)
    then record b { exceeded = true }
    else if ltb_ℤ remaining (pos (length value))
    then record b { bytes = b.bytes ++ take (pos_part remaining) value; exceeded = true }
    else record b { bytes = b.bytes ++ value }

-- A request's body: none, or what reading it up to the bound gives.
pub data RequestBody : Type 0 where
  no_body unreadable : RequestBody
  content : List ℕ → RequestBody

abbrev malformed_body : RequestBody → ℤ → Bool
malformed_body no_body most = false
malformed_body unreadable most = true
malformed_body (content bytes) most = leb_ℤ most (pos 0) || not (length bytes == 0)

unfoldable pub malformed_request : String → RequestBody → ℤ → Bool
malformed_request raw_query body most = not (str_eq raw_query "") || malformed_body body most

pub data Reply : Type 0 where
  failure : ℕ → String → Reply
  success : List ℕ → Reply

unfoldable pub write_snapshot_error : Error → Reply
write_snapshot_error (snapshot_error SnapshotError.snapshot_too_large) =
    failure 413 "snapshot_too_large"
write_snapshot_error (snapshot_error SnapshotError.invalid_user) = failure 401 "unauthorized"
write_snapshot_error _ = failure 500 "internal_error"

-- The encoder writes one whole value, or fails before it writes.
module _ (encode : SnapshotResponse → Option (List ℕ)) where
  abbrev pub empty_buffer : Limits → BoundedBuffer
  empty_buffer limits = record { bytes = []; max = limits.max_response_bytes; exceeded = false }

  abbrev pub sent : Limits → BoundedBuffer → Reply
  sent limits b =
      if b.exceeded || ltb_ℤ limits.max_response_bytes (pos (length b.bytes))
      then failure 413 "snapshot_too_large"
      else success b.bytes

  abbrev pub encoded : Limits → Option (List ℕ) → Reply
  encoded limits none = failure 500 "internal_error"
  encoded limits (some value) = sent limits (write value (empty_buffer limits))

  abbrev pub found : Limits → Result Snapshot × Database → Reply × Database
  found limits (err e, db) = (write_snapshot_error e, db)
  found limits (ok s, db) = (encoded limits (encode (response_from_snapshot s)), db)

  -- The handler has its service, whose limits are `service_limits`. The identity is `none` where the
  -- context has none, or one with a nil part.
  unfoldable pub get :
      Limits → Limits → Option Identity → String → RequestBody → Database → Reply × Database
  unfolding write response_from_snapshot write_snapshot_error malformed_request get_snapshot
  get limits service_limits none raw_query body db = (failure 401 "unauthorized", db)
  get limits service_limits (some identity) raw_query body db =
      if malformed_request raw_query body limits.max_request_bytes
      then (failure 400 "invalid_request", db)
      else found limits (get_snapshot service_limits identity.user_id db)
