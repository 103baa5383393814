-- ===== src/Tests/Core.antt =====
-- The guarantees of `ProcessOperation` at one receipt of goods.
use stok_sync.Common.{◌≡◌, refl}
use stok_sync.Common.Int.{◌+ℤ◌}
use stok_sync.Errors.{ok, err, tx_aborted}
use stok_sync.Movements.Effect.{appended}
use stok_sync.Movements.{map_movement_error}
use stok_sync.Consistency.{IsConsistent}
use stok_sync.Consistency.Step.{Grows}
use stok_sync.Db.Tx.{with_tx_result}
use stok_sync.Sync.Process.{
  run_operation, process_operation, process_fresh, record_change, finalize_operation,
}
use stok_sync.Db.SyncOps.{try_insert_sync_operation, update_sync_operation}
use stok_sync.Sync.Operations.{
  append_input, rejected_for_domain_error, rejected_result, apply_operation, apply_movement,
  marshal_movement_change,
}
use stok_sync.Sync.Validate.{validate_operation}
use stok_sync.Movements.{
  append_movement_in_transaction_with_resolution, normalize_append_input,
  append_in_transaction_with_policy, or_miss, check_reversal, append_checked, latest_stocktake,
  canonical_qty, check_order, append_write, movement_delta, write_movement, resolution,
}
use stok_sync.Db.Products.{get_product_for_update}
use stok_sync.Db.Movements.{insert_stock_movement}
use stok_sync.Db.Balances.{increment_product_balance}
use stok_sync.Db.ChangeLog.{append_change_log}
use stok_sync.Sync.Process.Guarantees.{
  IsNumbered, run_operation-IsConsistent, run_operation-IsNumbered, run_operation-Grows,
}
use stok_sync.Tests.World.{receive_payload, codec, now, identity, receive, store, applied}

-- The receipt is applied under sequence 1.
pub received : (run_operation codec now identity receive store).0 ≡ ok applied
unfolding run_operation with_tx_result process_operation try_insert_sync_operation process_fresh
    apply_operation validate_operation apply_movement append_movement_in_transaction_with_resolution
    normalize_append_input append_in_transaction_with_policy or_miss get_product_for_update
    check_reversal append_checked latest_stocktake canonical_qty check_order append_write
    movement_delta write_movement insert_stock_movement increment_product_balance resolution
    marshal_movement_change record_change append_change_log finalize_operation update_sync_operation
    ◌+ℤ◌
received = refl

-- The same movement under another key: the rejection cannot be stored, and nothing is.
reused_movement_id :
    run_operation codec now identity
      (record receive { op_id = 43 })
      (appended (append_input identity receive_payload) store)
    ≡ (err tx_aborted, appended (append_input identity receive_payload) store)
unfolding run_operation with_tx_result process_operation try_insert_sync_operation process_fresh
    apply_operation validate_operation apply_movement append_movement_in_transaction_with_resolution
    normalize_append_input append_in_transaction_with_policy or_miss get_product_for_update
    check_reversal append_checked latest_stocktake canonical_qty check_order append_write
    movement_delta write_movement insert_stock_movement increment_product_balance resolution
    marshal_movement_change record_change append_change_log finalize_operation update_sync_operation
    ◌+ℤ◌ rejected_for_domain_error rejected_result map_movement_error
reused_movement_id = refl

pub store-IsConsistent : IsConsistent store
store-IsConsistent = record {
  distinct = (refl, tt);
  referenced = tt;
  projected = ((_, refl, refl, refl), tt);
}

run_operation-IsConsistent_example : IsConsistent (run_operation codec now identity receive store).1
run_operation-IsConsistent_example =
    run_operation-IsConsistent codec now identity receive store store-IsConsistent

run_operation-IsNumbered_example : IsNumbered (run_operation codec now identity receive store).1
run_operation-IsNumbered_example = run_operation-IsNumbered codec now identity receive store refl

run_operation-Grows_example :
    Grows store.movements (run_operation codec now identity receive store).1.movements
run_operation-Grows_example = run_operation-Grows codec now identity receive store
