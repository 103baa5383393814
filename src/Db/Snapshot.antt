-- ===== src/Db/Snapshot.antt =====
-- The statements of a snapshot (server/internal/db/queries.go), each with a bound on its rows.
use stok_sync.Common.{some, Bool, true, false, ◌&&◌, ◌||◌, List, if◌then◌else◌, ◌==◌, ltb}
use stok_sync.Common.Int.{ℤ, pos, pos_part, ◌+ℤ◌, ltb_ℤ, leb_ℤ, eq_ℤ, max_int32_value}
use stok_sync.Common.Lists.{length, take, sort_by, where_rows}
use stok_sync.Errors.{Uuid, Time, row_limit}
use stok_sync.Db.Types.{Database, Product, StockMovement, LedgerBalance}
use stok_sync.Db.Tx.{Tx, pure, fail, select_one, select_rows, ◌>>=◌}
use stok_sync.Db.Movements.{list_ledger_balances_sql}

-- ORDER BY id.
abbrev pub product_order : Product → Product → Bool
product_order a b = ltb a.id b.id

abbrev pub all_products : Uuid → Database → List Product
all_products user db = sort_by product_order (where_rows (λ p. p.user_id == user) db.products)

-- ORDER BY product_id, occurred_at, id.
abbrev pub movement_order : StockMovement → StockMovement → Bool
movement_order a b =
    ltb a.product_id b.product_id
    || (a.product_id == b.product_id
        && (ltb_ℤ a.occurred_at b.occurred_at
            || (eq_ℤ a.occurred_at b.occurred_at && ltb a.id b.id)))

abbrev pub all_movements : Uuid → Database → List StockMovement
all_movements user db = sort_by movement_order (where_rows (λ m. m.user_id == user) db.movements)

unfoldable pub list_snapshot_products_sql : Uuid → ℤ → Database → List Product
list_snapshot_products_sql user most db = take (pos_part most) (all_products user db)

unfoldable pub list_snapshot_movements_sql : Uuid → ℤ → Database → List StockMovement
list_snapshot_movements_sql user most db = take (pos_part most) (all_movements user db)

unfoldable pub list_snapshot_balances_sql : Uuid → ℤ → Database → List LedgerBalance
unfolding list_ledger_balances_sql
list_snapshot_balances_sql user most db = take (pos_part most) (list_ledger_balances_sql user db)

-- The rows cut at the bound, and whether there were more.
abbrev pub cut : {A : Type 0} → ℤ → List A → List A × Bool
cut most rows =
    if ltb (pos_part most) (length rows) then (take (pos_part most) rows, true) else (rows, false)

-- The statement asks for one row more than the bound.
abbrev pub bounded : {A : Type 0} → ℤ → (ℤ → Database → List A) → Tx (List A × Bool)
bounded most q =
    if leb_ℤ most (pos 0) || eq_ℤ most max_int32_value
    then fail row_limit
    else select_rows (q (most +ℤ pos 1)) >>= λ rows. pure (cut most rows)

unfoldable pub list_snapshot_products : Uuid → ℤ → Tx (List Product × Bool)
unfolding select_rows list_snapshot_products_sql
list_snapshot_products user most = bounded most (list_snapshot_products_sql user)

unfoldable pub list_snapshot_movements : Uuid → ℤ → Tx (List StockMovement × Bool)
unfolding select_rows list_snapshot_movements_sql
list_snapshot_movements user most = bounded most (list_snapshot_movements_sql user)

unfoldable pub list_snapshot_balances : Uuid → ℤ → Tx (List LedgerBalance × Bool)
unfolding select_rows list_snapshot_balances_sql
list_snapshot_balances user most = bounded most (list_snapshot_balances_sql user)

unfoldable pub current_database_time : Tx Time
unfolding select_one
current_database_time = select_one (λ db. some db.clock)
