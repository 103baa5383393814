-- ===== src/Db/Movements.antt =====
-- The statements on `stock_movements` (server/internal/db/queries.go), which only ever grows.
use stok_sync.Common.{
  Option, none, some, Bool, not, ◌&&◌, ◌||◌, List, [], ◌∷◌, String, any_some, if◌then◌else◌, ◌==◌,
  ltb,
}
use stok_sync.Common.Int.{ℤ, pos, ◌+ℤ◌, ltb_ℤ, eq_ℤ}
use stok_sync.Common.Text.{str_eq}
use stok_sync.Common.Lists.{find, exists_row, where_rows, sort_by, first_by}
use stok_sync.Errors.{Uuid, Time}
use stok_sync.Db.Types.{Database, StockMovement, CreateStockMovementParams, LedgerBalance, Product}
use stok_sync.Db.Tx.{Outcome, row, no_row, violation, Tx, statement, select_one, select_rows}
use stok_sync.Db.Products.{is_active, owns_device}

-- The CHECK on `kind`.
abbrev pub kind_allowed : String → Bool
kind_allowed kind =
    str_eq kind "receive" || str_eq kind "issue" || str_eq kind "adjust" || str_eq kind "stocktake"

abbrev pub inserted : CreateStockMovementParams → Database → StockMovement
inserted params db = record {
  id = params.id;
  user_id = params.user_id;
  product_id = params.product_id;
  delta = params.delta;
  kind = params.kind;
  note = params.note;
  occurred_at = params.occurred_at;
  raw_occurred_at = params.raw_occurred_at;
  clock_offset_ms = params.clock_offset_ms;
  counted_qty = params.counted_qty;
  reverses_id = params.reverses_id;
  device_id = params.device_id;
  server_created_at = db.clock;
}

-- The foreign key (user_id, reverses_id), which a null reference meets, and the row itself too.
abbrev pub dangling_reversal : CreateStockMovementParams → Database → Bool
dangling_reversal params db =
    any_some
      (λ target. not (
        exists_row (λ m. m.id == target && m.user_id == params.user_id)
          (inserted params db ∷ db.movements)))
      params.reverses_id

-- A violated key on one column is reported under the name of the composite key of the same rows.
unfoldable pub insert_stock_movement_sql :
    CreateStockMovementParams → Database → Outcome StockMovement
insert_stock_movement_sql params db =
    if not (
      exists_row (λ p. (p.id == params.product_id && p.user_id == params.user_id) && is_active p)
        db.products)
    then no_row
    else if eq_ℤ params.delta (pos 0)
    then violation "stock_movements_delta_nonzero_check"
    else if not (kind_allowed params.kind)
    then violation "stock_movements_kind_check"
    else if exists_row (λ m. m.id == params.id) db.movements
    then violation "stock_movements_pkey"
    else if not (owns_device params.user_id params.device_id db.devices)
    then violation "stock_movements_device_owner_fkey"
    else if dangling_reversal params db
    then violation "stock_movements_reverses_owner_fkey"
    else row (inserted params db) (record db { movements = inserted params db ∷ db.movements })

unfoldable pub get_stock_movement_by_id_sql : Uuid → Database → Option StockMovement
get_stock_movement_by_id_sql id db = find (λ m. m.id == id) db.movements

-- ORDER BY occurred_at DESC, id DESC.
abbrev pub stocktake_order : StockMovement → StockMovement → Bool
stocktake_order a b =
    ltb_ℤ b.occurred_at a.occurred_at || (eq_ℤ a.occurred_at b.occurred_at && ltb b.id a.id)

abbrev pub is_stocktake_of : Uuid → Uuid → StockMovement → Bool
is_stocktake_of user product m =
    (m.user_id == user && m.product_id == product) && str_eq m.kind "stocktake"

unfoldable pub get_latest_stocktake_sql : Uuid → Uuid → Database → Option StockMovement
get_latest_stocktake_sql user product db =
    first_by stocktake_order (where_rows (is_stocktake_of user product) db.movements)

abbrev pub of_product : Uuid → Uuid → StockMovement → Bool
of_product user product m = m.user_id == user && m.product_id == product

-- COALESCE(SUM(delta), 0)::bigint over the rows of one product.
abbrev pub sum_delta : Uuid → Uuid → List StockMovement → ℤ
sum_delta user product [] = pos 0
sum_delta user product (m ∷ ms) =
    let rest = sum_delta user product ms in
    if of_product user product m then rest +ℤ m.delta else rest

-- The greater of two instants, where the first may be NULL.
abbrev pub later : Option Time → Time → Option Time
later none t = some t
later (some u) t = if ltb_ℤ u t then some t else some u

-- MAX(occurred_at) over the rows of one product.
abbrev pub max_occurred_at : Uuid → Uuid → List StockMovement → Option Time
max_occurred_at user product [] = none
max_occurred_at user product (m ∷ ms) =
    let rest = max_occurred_at user product ms in
    if of_product user product m then later rest m.occurred_at else rest

unfoldable pub get_product_ledger_balance_sql : Uuid → Uuid → Database → LedgerBalance
get_product_ledger_balance_sql user product db = record {
  product_id = product;
  qty = sum_delta user product db.movements;
  last_movement_at = max_occurred_at user product db.movements;
}

abbrev pub ledger_balances_of : Uuid → List Product → Database → List LedgerBalance
ledger_balances_of user [] db = []
ledger_balances_of user (p ∷ ps) db =
    let rest = ledger_balances_of user ps db in
    if p.user_id == user then get_product_ledger_balance_sql user p.id db ∷ rest else rest

-- LEFT JOIN, GROUP BY p.id, ORDER BY p.id.
unfoldable pub list_ledger_balances_sql : Uuid → Database → List LedgerBalance
list_ledger_balances_sql user db =
    sort_by (λ a b. ltb a.product_id b.product_id) (ledger_balances_of user db.products db)

unfoldable pub insert_stock_movement : CreateStockMovementParams → Tx StockMovement
unfolding statement insert_stock_movement_sql
insert_stock_movement params = statement (insert_stock_movement_sql params)

unfoldable pub get_stock_movement_by_id : Uuid → Tx StockMovement
unfolding select_one get_stock_movement_by_id_sql
get_stock_movement_by_id id = select_one (get_stock_movement_by_id_sql id)

unfoldable pub get_latest_stocktake : Uuid → Uuid → Tx StockMovement
unfolding select_one get_latest_stocktake_sql
get_latest_stocktake user product = select_one (get_latest_stocktake_sql user product)

unfoldable pub get_product_ledger_balance : Uuid → Uuid → Tx LedgerBalance
unfolding select_one get_product_ledger_balance_sql
get_product_ledger_balance user product =
    select_one (λ db. some (get_product_ledger_balance_sql user product db))

unfoldable pub list_ledger_balances : Uuid → Tx (List LedgerBalance)
unfolding select_rows list_ledger_balances_sql
list_ledger_balances user = select_rows (list_ledger_balances_sql user)
