-- ===== src/Movements/Latest.antt =====
-- An accepted stocktake against all the recorded ones (server/internal/movements/service.go), where the
-- code reads the latest one alone.
use stok_sync.Common.{none, some, Option, true, false, List, [], ◌≡◌, ◌⊎◌, ◌<◌}
use stok_sync.Common.Int.{◌<ℤ◌, ◌≤ℤ◌}
use stok_sync.Common.Lists.{All, where_rows}
use stok_sync.Errors.{Uuid, Time}
use stok_sync.Db.Types.{StockMovement, Database}
use stok_sync.Db.Movements.{stocktake_order, is_stocktake_of}
use stok_sync.Movements.{AppendInput}

-- The movement was before the instant, or at it with a smaller identifier.
abbrev pub Precedes : Time → Uuid → StockMovement → Type 0
Precedes at id m = (m.occurred_at <ℤ at) ⊎ ((m.occurred_at ≤ℤ at) × (m.id < id))

-- Every recorded stocktake of the product precedes.
abbrev pub AllPrecede : AppendInput → Database → Type 0
AllPrecede input db =
    All
      (λ m.
        is_stocktake_of input.user_id input.product_id m ≡ true
        → Precedes input.occurred_at input.id m)
      db.movements

abbrev IsFirst : List StockMovement → Option StockMovement → Type 0
IsFirst ms none = ms ≡ []
IsFirst ms (some y) = All (λ m. stocktake_order m y ≡ false) ms

module _ (input : AppendInput) where
  abbrev stocktakes : Database → List StockMovement
  stocktakes db = where_rows (is_stocktake_of input.user_id input.product_id) db.movements
