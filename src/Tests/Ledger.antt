-- ===== src/Tests/Ledger.antt =====
-- The theorems on the projection, on reversals and on recorded stocktakes at one account's ledger.
use stok_sync.Common.{none, true, arith, List, ◌≡◌, refl, ◌↔◌}
use stok_sync.Common.Int.{pos, ◌+ℤ◌, ◌-ℤ◌}
use stok_sync.Common.Lists.{All, where_rows}
use stok_sync.Errors.{ok}
use stok_sync.Db.Types.{Database, ProductBalance}
use stok_sync.Db.Tx.Ends.{Commits}
use stok_sync.Db.Movements.{sum_delta}
use stok_sync.Consistency.{DistinctBalances, Projected}
use stok_sync.Movements.Effect.{appended}
use stok_sync.Movements.Projection.{
  ProjectionVerification, verify_product_balances, rebuild_balances,
}
use stok_sync.Movements.Projection.Fits.{mine}
use stok_sync.Movements.Projection.Verify.{verify_product_balances-Projected}
use stok_sync.Movements.Projection.Rebuild.{rebuild_balances-verify}
use stok_sync.Movements.Reversal.{ReverseInput, StocktakeInput, reverse_movement, record_stocktake}
use stok_sync.Movements.Reversal.Effects.{
  Reversed, reverse_movement-Reversed, record_stocktake_reconciles,
}
use stok_sync.Sync.Operations.{append_input}
use stok_sync.Sync.Process.{run_operation}
use stok_sync.Sync.Process.Guarantees.{run_operation-DistinctBalances}
use stok_sync.Tests.World.{codec, now, identity, receive, receive_payload, store}

-- Five pieces came in.
abbrev stocked : Database
stocked = appended (append_input identity receive_payload) store

-- The projection still says zero.
abbrev stale : Database
stale = record stocked { balances = store.balances }

verify_product_balances-Projected_example :
    (v : ProjectionVerification) × (verify_product_balances 7 stale ≡ (ok v, stale))
    × ((v.consistent ≡ true)
        ↔ All (Projected stale.movements stale.balances) (where_rows (mine 7) stale.products))
verify_product_balances-Projected_example =
    verify_product_balances-Projected 7 stale refl (refl, tt)

rebuild_balances-verify_example :
    (bs : List ProductBalance) × (v : ProjectionVerification) × (rebuild_balances 7 stale
      ≡ (ok tt, record stale { balances = bs }))
    × (verify_product_balances 7 (record stale { balances = bs })
        ≡ (ok v, record stale { balances = bs }))
    × (v.consistent ≡ true)
rebuild_balances-verify_example = rebuild_balances-verify 7 stale refl (refl, tt) (refl, tt)

run_operation-DistinctBalances_example :
    DistinctBalances (run_operation codec now identity receive store).1.balances
run_operation-DistinctBalances_example =
    run_operation-DistinctBalances codec now identity receive store (refl, tt)

abbrev take_back : ReverseInput
take_back = record {
  id = 31;
  user_id = 7;
  device_id = 4;
  movement_id = 21;
  original_movement_id = 0;
  note = none;
  occurred_at = pos 940;
  raw_occurred_at = pos 0;
  clock_offset_ms = pos 0;
}

reverse_movement-Reversed_example :
    Commits (Reversed take_back stocked) stocked (reverse_movement take_back stocked)
reverse_movement-Reversed_example = reverse_movement-Reversed take_back stocked

abbrev shelf_count : StocktakeInput
shelf_count = record {
  id = 32;
  user_id = 7;
  product_id = 11;
  device_id = 4;
  counted_qty = pos 4;
  note = none;
  occurred_at = pos 945;
  raw_occurred_at = pos 0;
  clock_offset_ms = pos 0;
}

record_stocktake_reconciles_example :
    Commits
      (λ _ db'. sum_delta 7 11 db'.movements ≡ pos 4)
      stocked
      (record_stocktake shelf_count stocked)
unfolding ◌-ℤ◌ ◌+ℤ◌
record_stocktake_reconciles_example =
    record_stocktake_reconciles shelf_count stocked (omega arith) (omega arith)
