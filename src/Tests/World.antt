-- ===== src/Tests/World.antt =====
-- One account with two devices and one product, and an encoding of the texts that the runs use.
use stok_sync.Common.{none, some, true, ◌||◌, String, List, [], ◌∷◌, if◌then◌else◌}
use stok_sync.Common.Int.{pos}
use stok_sync.Common.Text.{str_eq}
use stok_sync.Errors.{Uuid, Time}
use stok_sync.Db.Types.{Database, User, Device, Product, ProductBalance}
use stok_sync.Sync.Dto.{
  Codec, SyncRequest, Operation, OperationResult, AddMovementPayload, UpsertProductPayload,
}
use stok_sync.Sync.Operations.{Identity}

abbrev pub identity : Identity
identity = record { user_id = 7; device_id = 3 }

abbrev pub now : Time
now = pos 1000

abbrev pub receive_payload : AddMovementPayload
receive_payload = record {
  id = 21;
  product_id = 11;
  delta = pos 5;
  kind = "receive";
  note = none;
  occurred_at = pos 900;
  raw_occurred_at = none;
  clock_offset_ms = pos 0;
  counted_qty = none;
  reverses_id = none;
  device_id = none;
}

abbrev count_payload : AddMovementPayload
count_payload = record receive_payload {
  id = 22;
  delta = pos 1;
  kind = "stocktake";
  counted_qty = some (pos 3);
}

abbrev pub edit_payload : UpsertProductPayload
edit_payload = record {
  id = 11;
  barcode = none;
  sku = none;
  name = "bolts";
  description = none;
  unit = "pcs";
  category = none;
  min_stock = none;
}

-- The text of one JSON value that PostgreSQL writes otherwise.
abbrev pub jsonb_text : String → String
jsonb_text text = if str_eq text "{applied}" then "{ applied }" else text

abbrev pub applied : OperationResult
applied = record {
  op_id = 41;
  status = "applied";
  seq = some (pos 1);
  reason = "";
  server_state = "";
  stocktake_outcome = none;
}

abbrev rejection : OperationResult
rejection = record applied { status = "rejected"; seq = none; reason = "device_mismatch" }

abbrev pub receive : Operation
receive = record { op_id = 41; op = "add_movement"; base_version = none; payload = "{receive}" }

abbrev pub count : Operation
count = record { op_id = 42; op = "add_movement"; base_version = none; payload = "{count}" }

abbrev pub request : SyncRequest
request = record {
  schema_version = pos 1;
  device_id = 3;
  cursor = pos 0;
  max_changes = pos 10;
  client_time = pos 990;
  ops = some (receive ∷ []);
}

abbrev pub codec : Codec
codec = record {
  is_object = λ raw. true;
  decode_add_movement = λ raw.
      if str_eq raw "{count}"
      then some count_payload
      else if str_eq raw "{receive}"
      then some receive_payload
      else none;
  decode_upsert_product = λ raw. some edit_payload;
  decode_delete_product = λ raw. some (record { id = 11; deleted_at = none });
  decode_result = λ raw.
      if str_eq raw "{applied}" || str_eq raw "{ applied }" then some applied else some rejection;
  marshal_result = λ r. some (if str_eq r.status "applied" then "{applied}" else "{rejected}");
  marshal_product = λ p. some "{product}";
  marshal_movement = λ m. some "{movement}";
  decode_request = λ raw. if str_eq raw "{request}" then some request else none;
  ends_after_value = λ raw. true;
  encode_response = λ r. some "{response}";
}

abbrev pub product : Product
product = record {
  id = 11;
  user_id = 7;
  barcode = none;
  sku = none;
  name = "nuts";
  description = none;
  unit = "pcs";
  category = none;
  min_stock = none;
  version = pos 1;
  updated_at = pos 100;
  updated_by_device_id = 3;
  deleted_at = none;
  created_at = pos 100;
}

abbrev empty_balance : ProductBalance
empty_balance = record {
  product_id = 11;
  qty = pos 0;
  last_movement_at = none;
  updated_at = pos 100;
}

abbrev device : Uuid → Device
device id = record {
  id = id;
  user_id = 7;
  name = "phone";
  platform = "android";
  last_seen_at = none;
  last_ack_seq = pos 0;
  created_at = pos 50;
}

abbrev users : List User
users =
    record {
      id = 7;
      email = "a@b.c";
      password_hash = "#secret12";
      created_at = pos 40;
      updated_at = pos 40;
    }
    ∷ []

abbrev devices : List Device
devices = device 3 ∷ device 4 ∷ []

abbrev pub store : Database
store = record {
  clock = pos 950;
  jsonb = jsonb_text;
  users = users;
  devices = devices;
  refresh_tokens = [];
  products = product ∷ [];
  movements = [];
  balances = empty_balance ∷ [];
  last_seq = pos 0;
  change_log = [];
  sync_ops = [];
}
