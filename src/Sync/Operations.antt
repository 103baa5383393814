-- ===== src/Sync/Operations.antt =====
-- server/internal/sync/operations.go: one operation in its transaction.
pub mod Effect
pub mod Outcome
pub mod Apply
use stok_sync.Common.{
  Option, none, some, Bool, true, false, not, ◌&&◌, ◌||◌, List, [], ◌∷◌, map, String, is_some,
  any_some, if◌then◌else◌, ◌==◌,
}
use stok_sync.Common.Int.{ℤ, pos, leb_ℤ, eq_ℤ}
use stok_sync.Common.Text.{str_eq, trim_space, normalize_optional_string}
use stok_sync.Errors.{
  Uuid, Time, zero_time, StocktakeIntent, StocktakeResolution, ProductError, MovementError,
  SyncError, Error, product_error, movement_error, sync_error, no_rows, encoding_failed, Result, ok,
  err,
}
use stok_sync.Db.Types.{
  Database, Product, StockMovement, SyncOperation, CreateProductParams, UpdateProductParams,
  SoftDeleteProductParams, CreateStockMovementParams, InsertSyncOperationParams,
  UpdateSyncOperationParams, ChangeLogEntry,
}
use stok_sync.Db.Tx.{
  Tx, TxState, pure, fail, from_result, attempt, map_error, and_then, ◌>>=◌, ◌>>◌, set_savepoint,
  release_savepoint, rollback_to_savepoint, with_tx_result,
}
use stok_sync.Db.Products.{get_product_by_id, get_active_product_by_barcode}
use stok_sync.Db.ChangeLog.{append_change_log}
use stok_sync.Db.SyncOps.{try_insert_sync_operation, get_sync_operation, update_sync_operation}
use stok_sync.Products.{
  create_product_in_transaction, update_product_in_transaction, soft_delete_product_in_transaction,
}
use stok_sync.Movements.{append_movement_in_transaction_with_resolution}
use stok_sync.Sync.Dto.{
  Operation, OperationResult, Payload, add_movement, upsert_product, delete_product,
  AddMovementPayload, UpsertProductPayload, DeleteProductPayload, StocktakeOutcome, Codec,
  MovementChangePayload, ProductChangePayload,
}
use stok_sync.Sync.Limits.{Checked, valid, rejected, default_limits}
use stok_sync.Sync.Validate.{validate_operation, decode_payload}

-- The account and device of a validated access token.
pub record Identity : Type 0 where
  pub user_id : Uuid
  pub device_id : Uuid

pub record OperationChange : Type 0 where
  pub entity : String
  pub op : String
  pub entity_id : Uuid
  pub payload : String

abbrev pub Applied : Type 0
Applied = OperationResult × Option OperationChange

unfoldable pub rejected_result : Uuid → String → OperationResult
rejected_result op_id reason = record {
  op_id = op_id;
  status = "rejected";
  seq = none;
  reason = reason;
  server_state = "";
  stocktake_outcome = none;
}

abbrev pub product_reason : ProductError → String
product_reason ProductError.invalid_input = "invalid_product"
product_reason ProductError.product_not_found = "product_not_found"
product_reason ProductError.product_deleted = "product_deleted"
product_reason ProductError.version_conflict = "version_conflict"
product_reason ProductError.barcode_conflict = "barcode_conflict"
product_reason ProductError.product_conflict = "product_conflict"
product_reason ProductError.ownership_violation = "ownership_violation"

abbrev pub movement_reason : MovementError → Option String
movement_reason MovementError.invalid_input = some "invalid_movement"
movement_reason MovementError.invalid_delta = some "invalid_delta"
movement_reason MovementError.invalid_kind = some "invalid_movement_kind"
movement_reason MovementError.invalid_reversal = some "invalid_reversal"
movement_reason MovementError.movement_not_found = some "movement_not_found"
movement_reason MovementError.invalid_stocktake = some "invalid_stocktake"
movement_reason MovementError.product_not_found = some "product_not_found"
movement_reason MovementError.product_deleted = some "product_deleted"
movement_reason MovementError.movement_conflict = some "movement_conflict"
movement_reason MovementError.ownership_violation = some "ownership_violation"
movement_reason (MovementError.stocktake_displaced r) = none

abbrev domain_reason : Error → Option String
domain_reason (product_error e) = some (product_reason e)
domain_reason (movement_error e) = movement_reason e
domain_reason _ = none

abbrev pub rejection : Uuid → Option String → Option OperationResult
rejection op_id none = none
rejection op_id (some reason) = some (rejected_result op_id reason)

-- `none` is the result with `false`.
unfoldable pub rejected_for_domain_error : Uuid → Error → Option OperationResult
unfolding rejected_result
rejected_for_domain_error op_id e = rejection op_id (domain_reason e)

unfoldable pub stocktake_outcome_from_resolution : StocktakeResolution → StocktakeOutcome
stocktake_outcome_from_resolution r = record {
  product_id = r.product_id;
  canonical_balance = r.canonical_balance;
  canonical = r.canonical;
  incoming = r.incoming;
  displaced = r.displaced;
}

abbrev pub outcome_of : Option StocktakeResolution → Option StocktakeOutcome
outcome_of none = none
outcome_of (some r) = some (stocktake_outcome_from_resolution r)

abbrev pub applied_result : Uuid → Option StocktakeOutcome → OperationResult
applied_result op_id outcome = record {
  op_id = op_id;
  status = "applied";
  seq = none;
  reason = "";
  server_state = "";
  stocktake_outcome = outcome;
}

abbrev pub movement_change : StockMovement → Option StocktakeResolution → MovementChangePayload
movement_change m r = record {
  id = m.id;
  product_id = m.product_id;
  delta = m.delta;
  kind = m.kind;
  note = m.note;
  occurred_at = m.occurred_at;
  raw_occurred_at = m.raw_occurred_at;
  clock_offset_ms = m.clock_offset_ms;
  counted_qty = m.counted_qty;
  reverses_id = m.reverses_id;
  device_id = m.device_id;
  server_created_at = m.server_created_at;
  stocktake_outcome = outcome_of r;
}

abbrev pub product_change : Product → ProductChangePayload
product_change p = record {
  id = p.id;
  barcode = p.barcode;
  sku = p.sku;
  name = p.name;
  description = p.description;
  unit = p.unit;
  category = p.category;
  min_stock = p.min_stock;
  version = p.version;
  updated_at = p.updated_at;
  updated_by_device_id = p.updated_by_device_id;
  deleted_at = p.deleted_at;
  created_at = p.created_at;
}

abbrev pub or_marshal_error : {A : Type 0} → Option A → Result A
or_marshal_error none = err encoding_failed
or_marshal_error (some a) = ok a

abbrev pub value_or_zero_time : Option Time → Time
value_or_zero_time none = zero_time
value_or_zero_time (some t) = t

abbrev pub append_input : Identity → AddMovementPayload → CreateStockMovementParams
append_input identity payload = record {
  id = payload.id;
  user_id = identity.user_id;
  product_id = payload.product_id;
  delta = payload.delta;
  kind = payload.kind;
  note = payload.note;
  occurred_at = payload.occurred_at;
  raw_occurred_at = value_or_zero_time payload.raw_occurred_at;
  clock_offset_ms = payload.clock_offset_ms;
  counted_qty = payload.counted_qty;
  reverses_id = payload.reverses_id;
  device_id = identity.device_id;
}

abbrev pub create_input : Identity → UpsertProductPayload → CreateProductParams
create_input identity payload = record {
  id = payload.id;
  user_id = identity.user_id;
  barcode = payload.barcode;
  sku = payload.sku;
  name = payload.name;
  description = payload.description;
  unit = payload.unit;
  category = payload.category;
  min_stock = payload.min_stock;
  updated_by_device_id = identity.device_id;
}

abbrev pub update_input : Identity → UpsertProductPayload → ℤ → UpdateProductParams
update_input identity payload base = record {
  id = payload.id;
  user_id = identity.user_id;
  barcode = payload.barcode;
  sku = payload.sku;
  name = payload.name;
  description = payload.description;
  unit = payload.unit;
  category = payload.category;
  min_stock = payload.min_stock;
  base_version = base;
  updated_by_device_id = identity.device_id;
}

abbrev pub delete_input : Identity → DeleteProductPayload → ℤ → SoftDeleteProductParams
delete_input identity payload base = record {
  id = payload.id;
  user_id = identity.user_id;
  base_version = base;
  updated_by_device_id = identity.device_id;
}

-- `*operation.BaseVersion` where it is set and positive.
abbrev pub positive_base : Option ℤ → Option ℤ
positive_base none = none
positive_base (some v) = if leb_ℤ v (pos 0) then none else some v

abbrev pub is_barcode_conflict : Error → Bool
is_barcode_conflict (product_error ProductError.barcode_conflict) = true
is_barcode_conflict _ = false

-- The release's own error is dropped, after any other failure of the mutation.
abbrev pub recovered : Result Product → Tx Product
recovered (ok product) = release_savepoint >> pure product
recovered (err e) =
    if is_barcode_conflict e
    then rollback_to_savepoint >> (release_savepoint >> fail e)
    else attempt release_savepoint >>= λ _. fail e

unfoldable pub run_product_mutation_with_barcode_recovery : Tx Product → Tx Product
run_product_mutation_with_barcode_recovery mutate = do
  set_savepoint
  reply ← attempt mutate
  recovered reply

-- The applied result and the change that goes with it, if the row could be encoded.
abbrev pub change_applied :
    Uuid → Option StocktakeOutcome → String → String → Uuid → Result String → Tx Applied
change_applied op_id outcome entity op id (err e) = fail e
change_applied op_id outcome entity op id (ok payload) = pure (
  applied_result op_id outcome,
  some (record { entity = entity; op = op; entity_id = id; payload = payload }),
)

module _ (codec : Codec) where
  unfoldable pub marshal_product_change : Product → Result String
  marshal_product_change product = or_marshal_error (codec.marshal_product (product_change product))

  unfoldable pub marshal_movement_change :
      StockMovement → Option StocktakeResolution → Result String
  marshal_movement_change movement resolution =
      or_marshal_error (codec.marshal_movement (movement_change movement resolution))

  -- No state where the row cannot be encoded.
  unfoldable pub product_state : Product → String
  product_state product = elim (codec.marshal_product (product_change product)) [
    | none ↦ ""
    | some payload ↦ payload
  ]

  abbrev pub with_state : OperationResult → Product → OperationResult
  with_state result product = record result { server_state = product_state product }

  abbrev pub state_of : OperationResult → Result Product → Tx OperationResult
  state_of result (ok product) = pure (with_state result product)
  state_of result (err no_rows) = pure result
  state_of result (err e) = fail e

  unfoldable pub attach_canonical_barcode_product_state :
      Uuid → Option String → OperationResult → Tx OperationResult
  attach_canonical_barcode_product_state user none result = pure result
  attach_canonical_barcode_product_state user (some barcode) result = do
    reply ← attempt (get_active_product_by_barcode user barcode)
    state_of result reply

  abbrev pub owned_state_of : Uuid → OperationResult → Result Product → Tx OperationResult
  owned_state_of user result (ok product) =
      pure (if product.user_id == user then with_state result product else result)
  owned_state_of user result (err no_rows) = pure result
  owned_state_of user result (err e) = fail e

  unfoldable pub attach_canonical_product_state : Uuid → Uuid → OperationResult → Tx OperationResult
  attach_canonical_product_state user id result = do
    reply ← attempt (get_product_by_id id)
    owned_state_of user result reply

  abbrev pub movement_failed : Uuid → Error → Tx Applied
  movement_failed op_id (movement_error (MovementError.stocktake_displaced r)) = pure (
    record (rejected_result op_id "stocktake_displaced") {
      stocktake_outcome = some (stocktake_outcome_from_resolution r);
    },
    none,
  )
  movement_failed op_id e = elim (rejected_for_domain_error op_id e) [
    | none ↦ fail e
    | some result ↦ pure (result, none)
  ]

  abbrev pub movement_replied :
      Uuid → Result (StockMovement × Option StocktakeResolution) → Tx Applied
  movement_replied op_id (err e) = movement_failed op_id e
  movement_replied op_id (ok (movement, resolution)) =
      change_applied op_id (outcome_of resolution) "stock_movement" "upsert" movement.id
        (marshal_movement_change movement resolution)

  abbrev pub refused : Uuid → String → Tx Applied
  refused op_id reason = pure (rejected_result op_id reason, none)

  unfoldable pub apply_movement : Identity → Uuid → AddMovementPayload → Tx Applied
  apply_movement identity op_id payload =
      if any_some (λ d. not (d == identity.device_id)) payload.device_id
      then refused op_id "device_mismatch"
      else attempt (append_movement_in_transaction_with_resolution (append_input identity payload))
        >>= movement_replied op_id

  abbrev pub conflict_state :
      Uuid → Uuid → Option String → Error → OperationResult → Tx OperationResult
  conflict_state user id barcode (product_error ProductError.barcode_conflict) result =
      attach_canonical_barcode_product_state user barcode result
  conflict_state user id barcode (product_error ProductError.version_conflict) result =
      attach_canonical_product_state user id result
  conflict_state user id barcode (product_error ProductError.product_deleted) result =
      attach_canonical_product_state user id result
  conflict_state user id barcode _ result = pure result

  abbrev pub conclude : OperationResult → Tx Applied
  conclude result = pure (result, none)

  abbrev pub product_rejected :
      Identity → Uuid → Option String → Error → Option OperationResult → Tx Applied
  product_rejected identity id barcode e none = fail e
  product_rejected identity id barcode e (some result) =
      conflict_state identity.user_id id barcode e result >>= conclude

  abbrev pub product_failed : Identity → Uuid → Uuid → Option String → Error → Tx Applied
  product_failed identity op_id id barcode e =
      product_rejected identity id barcode e (rejected_for_domain_error op_id e)

  abbrev pub product_replied :
      Identity → Uuid → Uuid → Option String → String → Result Product → Tx Applied
  product_replied identity op_id id barcode op (err e) = product_failed identity op_id id barcode e
  product_replied identity op_id id barcode op (ok product) =
      change_applied op_id none "product" op product.id (marshal_product_change product)

  abbrev pub mutated : Identity → Uuid → UpsertProductPayload → Tx Product → Tx Applied
  mutated identity op_id payload mutate =
      attempt (run_product_mutation_with_barcode_recovery mutate)
      >>= product_replied identity op_id payload.id (normalize_optional_string payload.barcode)
          "upsert"

  abbrev pub update_from : Identity → Uuid → UpsertProductPayload → Option ℤ → Tx Applied
  update_from identity op_id payload none = refused op_id "invalid_base_version"
  update_from identity op_id payload (some version) =
      mutated identity op_id payload
        (update_product_in_transaction (update_input identity payload version))

  abbrev pub upsert_looked_up :
      Identity → Uuid → Option ℤ → UpsertProductPayload → Result Product → Tx Applied
  upsert_looked_up identity op_id base payload (err no_rows) =
      if any_some (λ v. not (eq_ℤ v (pos 0))) base
      then refused op_id "invalid_base_version"
      else mutated identity op_id payload
          (create_product_in_transaction (create_input identity payload))
  upsert_looked_up identity op_id base payload (err e) = fail e
  upsert_looked_up identity op_id base payload (ok current) =
      if not (current.user_id == identity.user_id)
      then refused op_id "ownership_violation"
      else if is_some current.deleted_at
      then pure (with_state (rejected_result op_id "product_deleted") current, none)
      else update_from identity op_id payload (positive_base base)

  unfoldable pub apply_product_upsert :
      Identity → Uuid → Option ℤ → UpsertProductPayload → Tx Applied
  apply_product_upsert identity op_id base payload =
      attempt (get_product_by_id payload.id) >>= upsert_looked_up identity op_id base payload

  -- `applyProductDelete`: only a version conflict or a deleted product has a state attached.
  abbrev pub delete_barcode : Option String
  delete_barcode = none

  abbrev pub delete_from : Identity → Uuid → DeleteProductPayload → Option ℤ → Tx Applied
  delete_from identity op_id payload none = refused op_id "invalid_base_version"
  delete_from identity op_id payload (some version) =
      attempt (soft_delete_product_in_transaction (delete_input identity payload version))
      >>= product_replied identity op_id payload.id delete_barcode "delete"

  unfoldable pub apply_product_delete :
      Identity → Uuid → Option ℤ → DeleteProductPayload → Tx Applied
  apply_product_delete identity op_id base payload =
      delete_from identity op_id payload (positive_base base)

  abbrev pub apply_payload : Identity → Operation → Option Payload → Tx Applied
  apply_payload identity o none = refused o.op_id "invalid_operation"
  apply_payload identity o (some (add_movement p)) = apply_movement identity o.op_id p
  apply_payload identity o (some (upsert_product p)) =
      apply_product_upsert identity o.op_id o.base_version p
  apply_payload identity o (some (delete_product p)) =
      apply_product_delete identity o.op_id o.base_version p

  abbrev pub apply_checked : Identity → Operation → Checked (Unit {0}) → Tx Applied
  apply_checked identity o (rejected _) = refused o.op_id "invalid_operation"
  apply_checked identity o (valid _) = apply_payload identity o (decode_payload codec o)

  -- The dispatch on the operation's name is that of its decoded payload.
  unfoldable pub apply_operation : Identity → Operation → Tx Applied
  apply_operation identity o = apply_checked identity o (validate_operation codec default_limits o)
