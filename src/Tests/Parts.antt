-- ===== src/Tests/Parts.antt =====
-- The theorems on the movement service, the catalog service and the limits at concrete inputs.
use stok_sync.Common.{not, true, arith, none, some, [], ◌∷◌, ◌≡◌, refl}
use stok_sync.Common.Int.{pos, negsuc, ◌+ℤ◌, ◌-ℤ◌, wrap64}
use stok_sync.Errors.{
  product_error, ProductError, ok, err, movement_error, MovementError, StocktakeResolution,
}
use stok_sync.Db.Types.{
  StockMovement, CreateProductParams, UpdateProductParams, SoftDeleteProductParams,
}
use stok_sync.Db.Tx.{TxState, begin}
use stok_sync.Db.Tx.Ends.{Ends}
use stok_sync.Db.Products.{get_product_by_id_sql, edited, update_product, get_product_for_update}
use stok_sync.Db.Movements.{
  inserted, sum_delta, get_latest_stocktake, get_product_ledger_balance, insert_stock_movement,
}
use stok_sync.Db.Balances.{increment_product_balance}
use stok_sync.Movements.{
  AppendInput, append_in_transaction_with_policy, or_miss, check_reversal, append_checked,
  latest_stocktake, canonical_qty, check_order, append_write, movement_delta, write_movement,
  resolution, stocktake_comes_after, stocktake_intent_from_movement,
}
use stok_sync.Movements.Effect.{appended, Untouched}
use stok_sync.Movements.Append.{Appends, append-Ends}
use stok_sync.Movements.Stocktakes.{
  stocktake_reconciles, stocktake_comes_after_total, stocktake_comes_after_trans,
}
use stok_sync.Movements.Accepts.{append_accepts, append_conflicts}
use stok_sync.Products.Stale.{stale_update}
use stok_sync.Products.{
  or_classify, create_product_in_transaction_normalized, update_product_in_transaction_normalized,
  soft_delete_product_in_transaction_normalized,
}
use stok_sync.Products.Effect.{product_edited, Created, create-Ends}
use stok_sync.Products.Verdict.{Decides, delete-Decides}
use stok_sync.Products.Changes.{Edits, Removes, update-Edits, delete-Removes}
use stok_sync.Sync.Limits.{Limits, valid, validate_limits, with_defaults}
use stok_sync.Sync.Limits.Defaults.{validate_limits-with_defaults}
use stok_sync.Sync.Operations.{append_input, create_input, update_input, delete_input}
use stok_sync.Tests.World.{product, identity, store, receive_payload, edit_payload}

abbrev receipt : AppendInput
receipt = append_input identity receive_payload

abbrev first_count : AppendInput
first_count = record receipt {
  id = 20;
  delta = pos 8;
  kind = "stocktake";
  counted_qty = some (pos 8);
  occurred_at = pos 800;
}

abbrev second_count : AppendInput
second_count = record first_count {
  id = 22;
  delta = pos 1;
  counted_qty = some (pos 3);
  occurred_at = pos 900;
}

-- Eight pieces were counted at 800.
abbrev counted : TxState
counted = begin (appended first_count store)

abbrev recount : AppendInput
recount = record second_count { delta = negsuc 4 }

abbrev recounted : TxState
recounted = record counted { db = appended recount counted.db }

abbrev recount_row : StockMovement
recount_row = inserted recount counted.db

recount_resolution : StocktakeResolution
unfolding stocktake_intent_from_movement
recount_resolution = record {
  product_id = 11;
  canonical_balance = pos 3;
  canonical = stocktake_intent_from_movement recount_row;
  incoming = stocktake_intent_from_movement recount_row;
  displaced = stocktake_intent_from_movement (inserted first_count store) ∷ [];
}

-- Three pieces counted at 900 take five off.
recounts :
    append_in_transaction_with_policy second_count true counted
    ≡ (ok (recount_row, some recount_resolution), recounted)
unfolding append_in_transaction_with_policy or_miss check_reversal append_checked latest_stocktake
    canonical_qty check_order append_write movement_delta write_movement resolution
    stocktake_comes_after wrap64 ◌+ℤ◌ ◌-ℤ◌ get_product_for_update get_latest_stocktake
    get_product_ledger_balance insert_stock_movement increment_product_balance recount_resolution
recounts = refl

stocktake_reconciles_example : sum_delta 7 11 recounted.db.movements ≡ pos 3
unfolding ◌-ℤ◌ ◌+ℤ◌
stocktake_reconciles_example =
    stocktake_reconciles second_count true counted recounted (recount_row, some recount_resolution)
      (pos 3) refl refl (omega arith) (omega arith) recounts

stocktake_comes_after_total_example :
    stocktake_comes_after (pos 900) 22 (pos 900) 20
    ≡ not (stocktake_comes_after (pos 900) 20 (pos 900) 22)
stocktake_comes_after_total_example =
    stocktake_comes_after_total (pos 900) (pos 900) 22 20 (omega arith)

stocktake_comes_after_trans_example : stocktake_comes_after (pos 900) 22 (pos 800) 21 ≡ true
unfolding stocktake_comes_after
stocktake_comes_after_trans_example =
    stocktake_comes_after_trans (pos 800) (pos 900) (pos 900) 21 20 22 refl refl

append_accepts_example :
    append_in_transaction_with_policy receipt true (begin store)
    ≡ (ok (inserted receipt store, none), begin (appended receipt store))
append_accepts_example =
    append_accepts receipt (begin store) true refl refl refl refl refl refl refl refl

append_conflicts_example :
    append_in_transaction_with_policy receipt true (begin (appended receipt store)) ≡ (
      err (movement_error MovementError.movement_conflict),
      record (begin (appended receipt store)) { aborted = true },
    )
append_conflicts_example =
    append_conflicts receipt (begin (appended receipt store)) true refl refl refl refl refl refl
      refl

append-Ends_example :
    Ends
      (Untouched counted)
      (Appends second_count true counted)
      (append_in_transaction_with_policy second_count true counted)
append-Ends_example = append-Ends second_count true counted

abbrev new_product : CreateProductParams
new_product = record (create_input identity edit_payload) { id = 12 }

create-Ends_example :
    Ends
      (Untouched (begin store))
      (Created new_product (begin store))
      (create_product_in_transaction_normalized new_product (begin store))
create-Ends_example = create-Ends new_product (begin store)

abbrev edit : UpdateProductParams
edit = update_input identity edit_payload (pos 1)

update-Edits_example :
    Ends
      (Untouched (begin store))
      (Edits edit (begin store))
      (update_product_in_transaction_normalized edit (begin store))
update-Edits_example = update-Edits edit (begin store) (refl, tt)

abbrev edited_state : TxState
edited_state = record (begin store) { db = product_edited edit store }

edits :
    update_product_in_transaction_normalized edit (begin store)
    ≡ (ok (edited edit store product), edited_state)
unfolding update_product_in_transaction_normalized or_classify update_product
edits = refl

abbrev rival : UpdateProductParams
rival = record edit { name = "screws"; updated_by_device_id = 4 }

stale_update_example :
    update_product_in_transaction_normalized rival edited_state
    ≡ (err (product_error ProductError.version_conflict), edited_state)
stale_update_example =
    stale_update edit rival (begin store) edited_state (edited edit store product) (refl, tt)
      (refl, refl, refl) edits

abbrev removal : SoftDeleteProductParams
removal = delete_input identity (record { id = 11; deleted_at = none }) (pos 1)

delete-Removes_example :
    Ends
      (Untouched (begin store))
      (Removes removal (begin store))
      (soft_delete_product_in_transaction_normalized removal (begin store))
delete-Removes_example = delete-Removes removal (begin store) (refl, tt)

-- The product stands at version 1.
abbrev late_removal : SoftDeleteProductParams
late_removal = record removal { base_version = pos 2 }

delete-Decides_example : Decides late_removal (begin store) (some ProductError.version_conflict)
unfolding get_product_by_id_sql
delete-Decides_example = delete-Decides late_removal (begin store) refl refl (refl, tt)

abbrev small : Limits
small = record {
  max_request_bytes = pos 4096;
  max_operations = pos 0;
  max_changes = pos 0;
  max_operation_payload_bytes = pos 0;
}

validate_limits-with_defaults_example : validate_limits (with_defaults small) ≡ valid tt
validate_limits-with_defaults_example =
    validate_limits-with_defaults small (omega arith) (omega arith) (omega arith) (omega arith)
      (omega arith)
