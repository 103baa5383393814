-- ===== src/Movements.antt =====
-- server/internal/movements/service.go: the immutable ledger and its balance projection.
pub mod Effect
pub mod Append
pub mod Stocktakes
pub mod Latest
pub mod Accepts
pub mod Projection
pub mod Reversal
use stok_sync.Common.{
  Option, none, some, Bool, true, false, not, ◌&&◌, ◌||◌, List, [], ◌∷◌, String, is_some, any_some,
  if◌then◌else◌, ◌==◌, ltb,
}
use stok_sync.Common.Int.{ℤ, pos, ◌+ℤ◌, ◌-ℤ◌, ltb_ℤ, eq_ℤ, wrap64, min_int32_value, max_int32_value}
use stok_sync.Common.Text.{str_eq, trim_space, normalize_optional_string}
use stok_sync.Errors.{
  Uuid, Time, zero_time, StocktakeIntent, StocktakeResolution, MovementError, Error, movement_error,
  pg_error, no_rows, Result, ok, err,
}
use stok_sync.Db.Types.{Database, Product, StockMovement, CreateStockMovementParams}
use stok_sync.Db.Tx.{Tx, pure, fail, from_result, attempt, map_error, with_tx_result, ◌>>=◌, ◌>>◌}
use stok_sync.Db.Products.{get_product_by_id, get_product_for_update}
use stok_sync.Db.Movements.{
  insert_stock_movement, get_stock_movement_by_id, get_latest_stocktake, get_product_ledger_balance,
}
use stok_sync.Db.Balances.{increment_product_balance}
use stok_sync.Products.{run_normalized}

abbrev pub AppendInput : Type 0
AppendInput = CreateStockMovementParams

abbrev refuse : {A : Type 0} → MovementError → Tx A
refuse e = fail (movement_error e)

map_constraint : String → Error
map_constraint name =
    if str_eq name "stock_movements_delta_nonzero_check"
    then movement_error MovementError.invalid_delta
    else if str_eq name "stock_movements_kind_check"
    then movement_error MovementError.invalid_kind
    else if str_eq name "stock_movements_product_owner_fkey"
        || str_eq name "stock_movements_product_id_fkey"
        || str_eq name "stock_movements_device_owner_fkey"
        || str_eq name "stock_movements_device_id_fkey"
        || str_eq name "stock_movements_user_id_fkey"
    then movement_error MovementError.ownership_violation
    else if str_eq name "stock_movements_reverses_owner_fkey"
        || str_eq name "stock_movements_reverses_id_fkey"
    then movement_error MovementError.invalid_reversal
    else if str_eq name "stock_movements_pkey"
    then movement_error MovementError.movement_conflict
    else pg_error name

unfoldable pub map_movement_error : Error → Error
unfolding map_constraint
map_movement_error (pg_error name) = map_constraint name
map_movement_error e = e

unfoldable pub is_movement_kind : String → Bool
is_movement_kind kind =
    str_eq kind "receive" || str_eq kind "issue" || str_eq kind "adjust" || str_eq kind "stocktake"

-- The canonical ordering key: the instant, then the identifier.
unfoldable pub stocktake_comes_after : Time → Uuid → Time → Uuid → Bool
stocktake_comes_after candidate_at candidate_id current_at current_id =
    if ltb_ℤ current_at candidate_at
    then true
    else if ltb_ℤ candidate_at current_at
    then false
    else ltb current_id candidate_id

abbrev pub or_zero : Option ℤ → ℤ
or_zero none = pos 0
or_zero (some n) = n

unfoldable pub stocktake_intent_from_input : AppendInput → StocktakeIntent
stocktake_intent_from_input input = record {
  movement_id = input.id;
  product_id = input.product_id;
  delta = input.delta;
  counted_qty = or_zero input.counted_qty;
  occurred_at = input.occurred_at;
  device_id = input.device_id;
}

unfoldable pub stocktake_intent_from_movement : StockMovement → StocktakeIntent
stocktake_intent_from_movement movement = record {
  movement_id = movement.id;
  product_id = movement.product_id;
  delta = movement.delta;
  counted_qty = or_zero movement.counted_qty;
  occurred_at = movement.occurred_at;
  device_id = movement.device_id;
}

abbrev zero_id : AppendInput → Bool
zero_id input = input.id == 0 || input.user_id == 0 || input.product_id == 0 || input.device_id == 0

-- `input.RawOccurredAt`, or the corrected instant for the zero time.
abbrev pub raw_or : Time → Time → Time
raw_or raw occurred = if eq_ℤ raw zero_time then occurred else raw

abbrev bad_reversal : String → Option Uuid → Bool
bad_reversal kind reverses = any_some (λ target. target == 0 || not (str_eq kind "adjust")) reverses

abbrev normalized_input : AppendInput → AppendInput
normalized_input input = record input {
  kind = trim_space input.kind;
  raw_occurred_at = raw_or input.raw_occurred_at input.occurred_at;
  note = normalize_optional_string input.note;
}

unfoldable pub normalize_append_input : AppendInput → Result AppendInput
unfolding is_movement_kind trim_space normalize_optional_string
normalize_append_input input =
    if zero_id input
    then err (movement_error MovementError.invalid_input)
    else if not (is_movement_kind (trim_space input.kind))
    then err (movement_error MovementError.invalid_kind)
    else if eq_ℤ input.occurred_at zero_time
    then err (movement_error MovementError.invalid_input)
    else if bad_reversal (trim_space input.kind) input.reverses_id
    then err (movement_error MovementError.invalid_reversal)
    else if str_eq (trim_space input.kind) "stocktake"
    then if not (is_some input.counted_qty) || any_some (λ n. ltb_ℤ n (pos 0)) input.counted_qty
      then err (movement_error MovementError.invalid_stocktake)
      else ok (normalized_input input)
    else if is_some input.counted_qty
    then err (movement_error MovementError.invalid_stocktake)
    else if eq_ℤ input.delta (pos 0)
    then err (movement_error MovementError.invalid_delta)
    else ok (normalized_input input)

abbrev classify : Uuid → Result Product → Error
classify user (err no_rows) = movement_error MovementError.product_not_found
classify user (err e) = e
classify user (ok product) =
    if not (product.user_id == user)
    then movement_error MovementError.ownership_violation
    else if is_some product.deleted_at
    then movement_error MovementError.product_deleted
    else movement_error MovementError.product_not_found

unfoldable pub classify_product_miss : Uuid → Uuid → Tx Error
unfolding get_product_by_id
classify_product_miss user id = do
  reply ← attempt (get_product_by_id id)
  pure (classify user reply)

-- A product or movement row, or the classified miss.
unfoldable pub or_miss : {A : Type 0} → Uuid → Uuid → Result A → Tx A
unfolding classify_product_miss
or_miss user id (ok a) = pure a
or_miss user id (err no_rows) = do fail (← classify_product_miss user id)
or_miss user id (err e) = fail e

abbrev check_original : AppendInput → Result StockMovement → Tx (Unit {0})
check_original input (err no_rows) = refuse MovementError.movement_not_found
check_original input (err e) = fail e
check_original input (ok original) =
    if not (original.user_id == input.user_id)
    then refuse MovementError.ownership_violation
    else if not (original.product_id == input.product_id)
    then refuse MovementError.invalid_reversal
    else pure tt

unfoldable pub check_reversal : AppendInput → Option Uuid → Tx (Unit {0})
unfolding get_stock_movement_by_id
check_reversal input none = pure tt
check_reversal input (some target) = do
  reply ← attempt (get_stock_movement_by_id target)
  check_original input reply

abbrev or_none : Result StockMovement → Tx (Option StockMovement)
or_none (ok latest) = pure (some latest)
or_none (err no_rows) = pure none
or_none (err e) = fail e

unfoldable pub latest_stocktake : AppendInput → Bool → Tx (Option StockMovement)
unfolding get_latest_stocktake
latest_stocktake input enforce =
    if enforce && str_eq input.kind "stocktake"
    then attempt (get_latest_stocktake input.user_id input.product_id) >>= or_none
    else pure none

-- The zero LedgerBalance for what is no stocktake.
unfoldable pub canonical_qty : AppendInput → Tx ℤ
unfolding get_product_ledger_balance
canonical_qty input =
    if str_eq input.kind "stocktake"
    then get_product_ledger_balance input.user_id input.product_id >>= (λ balance. pure balance.qty)
    else pure (pos 0)

abbrev pub displaced_by : AppendInput → ℤ → StockMovement → StocktakeResolution
displaced_by input qty latest = record {
  product_id = input.product_id;
  canonical_balance = qty;
  canonical = stocktake_intent_from_movement latest;
  incoming = stocktake_intent_from_input input;
  displaced = [];
}

abbrev pub is_displaced : AppendInput → StockMovement → Bool
is_displaced input latest =
    str_eq input.kind "stocktake"
    && not (stocktake_comes_after input.occurred_at input.id latest.occurred_at latest.id)

unfoldable pub check_order : AppendInput → ℤ → Option StockMovement → Tx (Unit {0})
unfolding stocktake_comes_after stocktake_intent_from_movement stocktake_intent_from_input
check_order input qty none = pure tt
check_order input qty (some latest) =
    if is_displaced input latest
    then refuse (MovementError.stocktake_displaced (displaced_by input qty latest))
    else pure tt

-- `int64(*input.CountedQty) - canonical.Qty` in 64-bit arithmetic.
abbrev pub delta64 : AppendInput → ℤ → ℤ
delta64 input qty = wrap64 (or_zero input.counted_qty -ℤ qty)

-- The conversion to int32 keeps the value, which the test has found in range.
unfoldable pub movement_delta : AppendInput → ℤ → Result ℤ
unfolding wrap64
movement_delta input qty =
    if str_eq input.kind "stocktake"
    then if eq_ℤ (delta64 input qty) (pos 0)
        || ltb_ℤ (delta64 input qty) min_int32_value
        || ltb_ℤ max_int32_value (delta64 input qty)
      then err (movement_error MovementError.invalid_delta)
      else ok (delta64 input qty)
    else if eq_ℤ input.delta (pos 0)
    then err (movement_error MovementError.invalid_delta)
    else ok input.delta

abbrev listed : Option StockMovement → List StocktakeIntent
listed none = []
listed (some latest) = stocktake_intent_from_movement latest ∷ []

unfoldable pub resolution :
    AppendInput → Bool → ℤ → Option StockMovement → StockMovement → Option StocktakeResolution
unfolding wrap64 stocktake_intent_from_movement
resolution input enforce qty latest movement =
    if not (str_eq input.kind "stocktake") || not enforce
    then none
    else some (record {
      product_id = input.product_id;
      canonical_balance = wrap64 (qty +ℤ movement.delta);
      canonical = stocktake_intent_from_movement movement;
      incoming = stocktake_intent_from_movement movement;
      displaced = listed latest;
    })

abbrev pub mapped_or_miss : AppendInput → Result StockMovement → Tx StockMovement
mapped_or_miss input (ok movement) = pure movement
mapped_or_miss input (err no_rows) = or_miss input.user_id input.product_id (err no_rows)
mapped_or_miss input (err e) = fail (map_movement_error e)

abbrev pub write_balance : AppendInput → StockMovement → Tx StockMovement
write_balance input movement = do
  balance ← map_error map_movement_error (
      increment_product_balance (record {
        user_id = input.user_id;
        product_id = input.product_id;
        delta = movement.delta;
        occurred_at = movement.occurred_at;
      }))
  pure movement

-- The writes: the ledger row, then the projection, in one transaction.
unfoldable pub write_movement : AppendInput → Tx StockMovement
unfolding map_movement_error
write_movement input = do
  reply ← attempt (insert_stock_movement input)
  movement ← mapped_or_miss input reply
  write_balance input movement

unfoldable pub append_write :
    AppendInput → Bool → ℤ → Option StockMovement → Tx (StockMovement × Option StocktakeResolution)
append_write input enforce qty latest = do
  delta ← from_result (movement_delta input qty)
  movement ← write_movement (record input { delta = delta })
  pure (movement, resolution input enforce qty latest movement)

unfoldable pub append_checked : AppendInput → Bool → Tx (StockMovement × Option StocktakeResolution)
append_checked input enforce = do
  latest ← latest_stocktake input enforce
  qty ← canonical_qty input
  check_order input qty latest
  append_write input enforce qty latest

abbrev pub check_deleted : Product → Tx (Unit {0})
check_deleted product =
    if is_some product.deleted_at then refuse MovementError.product_deleted else pure tt

unfoldable pub append_in_transaction_with_policy :
    AppendInput → Bool → Tx (StockMovement × Option StocktakeResolution)
append_in_transaction_with_policy input enforce = do
  locked ← attempt (get_product_for_update input.user_id input.product_id)
  product ← or_miss input.user_id input.product_id locked
  check_deleted product
  check_reversal input input.reverses_id
  append_checked input enforce

unfoldable pub append_movement_in_transaction_with_resolution :
    AppendInput → Tx (StockMovement × Option StocktakeResolution)
append_movement_in_transaction_with_resolution input = do
  normalized ← from_result (normalize_append_input input)
  append_in_transaction_with_policy normalized true

unfoldable pub append_in_transaction : AppendInput → Tx StockMovement
unfolding append_in_transaction_with_policy
append_in_transaction input = do
  appended ← append_in_transaction_with_policy input false
  pure appended.0

-- `AppendMovement` of the service.
unfoldable pub append_movement : AppendInput → Database → Result StockMovement × Database
unfolding with_tx_result normalize_append_input append_in_transaction
append_movement input = run_normalized (normalize_append_input input) append_in_transaction
