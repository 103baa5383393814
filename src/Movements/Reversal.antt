-- ===== src/Movements/Reversal.antt =====
-- Reversals and recorded stocktakes (server/internal/movements/service.go), over the append.
pub mod Effects
use stok_sync.Common.{
  Option, none, some, Bool, true, false, not, ◌&&◌, ◌||◌, String, if◌then◌else◌, ◌==◌,
}
use stok_sync.Common.Int.{ℤ, pos, neg, ltb_ℤ, eq_ℤ, min_int32_value}
use stok_sync.Common.Text.{normalize_optional_string}
use stok_sync.Errors.{
  Uuid, Time, zero_time, MovementError, Error, movement_error, no_rows, Result, ok, err,
}
use stok_sync.Db.Types.{Database, StockMovement, CreateStockMovementParams}
use stok_sync.Db.Tx.{Tx, fail, attempt, ◌>>=◌, with_tx_result}
use stok_sync.Db.Movements.{get_stock_movement_by_id}
use stok_sync.Products.{run_normalized}
use stok_sync.Movements.{raw_or, append_in_transaction, append_movement}

pub record ReverseInput : Type 0 where
  pub id : Uuid
  pub user_id : Uuid
  pub device_id : Uuid
  pub movement_id : Uuid
  pub original_movement_id : Uuid
  pub note : Option String
  pub occurred_at : Time
  pub raw_occurred_at : Time
  pub clock_offset_ms : ℤ

pub record StocktakeInput : Type 0 where
  pub id : Uuid
  pub user_id : Uuid
  pub product_id : Uuid
  pub device_id : Uuid
  pub counted_qty : ℤ
  pub note : Option String
  pub occurred_at : Time
  pub raw_occurred_at : Time
  pub clock_offset_ms : ℤ

abbrev refuse : {A : Type 0} → MovementError → Tx A
refuse e = fail (movement_error e)

-- `movementID` of the input.
abbrev pub target_of : ReverseInput → Uuid
target_of input =
    if not (input.movement_id == 0) then input.movement_id else input.original_movement_id

abbrev pub normalized_reversal : ReverseInput → ReverseInput
normalized_reversal input = record input {
  raw_occurred_at = raw_or input.raw_occurred_at input.occurred_at;
  note = normalize_optional_string input.note;
}

unfoldable pub normalize_reverse_input : ReverseInput → Result ReverseInput
unfolding normalize_optional_string
normalize_reverse_input input =
    if input.id == 0 || input.user_id == 0 || input.device_id == 0
    then err (movement_error MovementError.invalid_input)
    else if input.movement_id == 0 && input.original_movement_id == 0
    then err (movement_error MovementError.invalid_reversal)
    else if not (input.movement_id == 0)
        && not (input.original_movement_id == 0)
        && not (input.movement_id == input.original_movement_id)
    then err (movement_error MovementError.invalid_reversal)
    else if eq_ℤ input.occurred_at zero_time
    then err (movement_error MovementError.invalid_input)
    else ok (normalized_reversal input)

abbrev pub reversal_of : ReverseInput → StockMovement → CreateStockMovementParams
reversal_of input original = record {
  id = input.id;
  user_id = input.user_id;
  product_id = original.product_id;
  delta = neg original.delta;
  kind = "adjust";
  note = input.note;
  occurred_at = input.occurred_at;
  raw_occurred_at = input.raw_occurred_at;
  clock_offset_ms = input.clock_offset_ms;
  counted_qty = none;
  reverses_id = some original.id;
  device_id = input.device_id;
}

abbrev pub reverse_found : ReverseInput → Result StockMovement → Tx StockMovement
reverse_found input (err no_rows) = refuse MovementError.movement_not_found
reverse_found input (err e) = fail e
reverse_found input (ok original) =
    if not (original.user_id == input.user_id)
    then refuse MovementError.ownership_violation
    else if eq_ℤ original.delta min_int32_value
    then refuse MovementError.invalid_reversal
    else append_in_transaction (reversal_of input original)

unfoldable pub reverse_in_transaction : ReverseInput → Tx StockMovement
reverse_in_transaction input = do
  reply ← attempt (get_stock_movement_by_id (target_of input))
  reverse_found input reply

unfoldable pub reverse_movement : ReverseInput → Database → Result StockMovement × Database
unfolding normalize_reverse_input with_tx_result
reverse_movement input = run_normalized (normalize_reverse_input input) reverse_in_transaction

abbrev pub stocktake_append : StocktakeInput → CreateStockMovementParams
stocktake_append input = record {
  id = input.id;
  user_id = input.user_id;
  product_id = input.product_id;
  delta = pos 0;
  kind = "stocktake";
  note = input.note;
  occurred_at = input.occurred_at;
  raw_occurred_at = input.raw_occurred_at;
  clock_offset_ms = input.clock_offset_ms;
  counted_qty = some input.counted_qty;
  reverses_id = none;
  device_id = input.device_id;
}

unfoldable pub record_stocktake : StocktakeInput → Database → Result StockMovement × Database
record_stocktake input db =
    if ltb_ℤ input.counted_qty (pos 0)
    then (err (movement_error MovementError.invalid_stocktake), db)
    else append_movement (stocktake_append input) db
