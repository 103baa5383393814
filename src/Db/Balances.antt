-- ===== src/Db/Balances.antt =====
-- The statements on `product_balances`, the rebuildable projection of the ledger
-- (server/internal/db/queries.go).
use stok_sync.Common.{some, Bool, ◌&&◌, List, [], ◌∷◌, if◌then◌else◌, ◌==◌, ltb}
use stok_sync.Common.Int.{◌+ℤ◌}
use stok_sync.Common.Lists.{find, exists_row, where_rows, update_rows, sort_by}
use stok_sync.Errors.{Uuid}
use stok_sync.Db.Types.{
  Database, Product, ProductBalance, LedgerBalance, IncrementProductBalanceParams,
  UpsertProductBalanceParams,
}
use stok_sync.Db.Tx.{Outcome, row, no_row, selected, Tx, statement, select_rows}
use stok_sync.Db.Movements.{later, get_product_ledger_balance_sql}

abbrev pub of_id : Uuid → ProductBalance → Bool
of_id id b = b.product_id == id

abbrev pub owned_product : Uuid → Uuid → Product → Bool
owned_product user id p = p.user_id == user && p.id == id

-- INSERT ... ON CONFLICT (product_id) DO UPDATE: `change` on the row that is there.
abbrev pub upsert :
    (ProductBalance → ProductBalance) → ProductBalance → List ProductBalance → List ProductBalance
upsert change fresh bs =
    if exists_row (of_id fresh.product_id) bs
    then update_rows (of_id fresh.product_id) change bs
    else fresh ∷ bs

-- SET qty = qty + EXCLUDED.qty and the later of the two instants.
abbrev pub added : IncrementProductBalanceParams → Database → ProductBalance → ProductBalance
added params db b = record b {
  qty = b.qty +ℤ params.delta;
  last_movement_at = later b.last_movement_at params.occurred_at;
  updated_at = db.clock;
}

abbrev pub first_balance : IncrementProductBalanceParams → Database → ProductBalance
first_balance params db = record {
  product_id = params.product_id;
  qty = params.delta;
  last_movement_at = some params.occurred_at;
  updated_at = db.clock;
}

abbrev returning : Uuid → Database → Outcome ProductBalance
returning id db = selected db (find (of_id id) db.balances)

unfoldable pub increment_product_balance_sql :
    IncrementProductBalanceParams → Database → Outcome ProductBalance
increment_product_balance_sql params db =
    if exists_row (owned_product params.user_id params.product_id) db.products
    then returning params.product_id
        (record db { balances = upsert (added params db) (first_balance params db) db.balances })
    else no_row

abbrev pub set_balance : UpsertProductBalanceParams → Database → ProductBalance → ProductBalance
set_balance params db b = record b {
  qty = params.qty;
  last_movement_at = params.last_movement_at;
  updated_at = db.clock;
}

abbrev pub new_balance : UpsertProductBalanceParams → Database → ProductBalance
new_balance params db = record {
  product_id = params.product_id;
  qty = params.qty;
  last_movement_at = params.last_movement_at;
  updated_at = db.clock;
}

unfoldable pub upsert_product_balance_sql :
    UpsertProductBalanceParams → Database → Outcome ProductBalance
upsert_product_balance_sql params db =
    if exists_row (owned_product params.user_id params.product_id) db.products
    then returning params.product_id (record db {
      balances = upsert (set_balance params db) (new_balance params db) db.balances;
    })
    else no_row

-- ORDER BY product_id.
unfoldable pub list_product_balances_sql : Uuid → Database → List ProductBalance
list_product_balances_sql user db =
    sort_by (λ a b. ltb a.product_id b.product_id)
      (where_rows (λ b. exists_row (owned_product user b.product_id) db.products) db.balances)

abbrev pub rebuilt : LedgerBalance → Database → ProductBalance → ProductBalance
rebuilt l db b = record b {
  qty = l.qty;
  last_movement_at = l.last_movement_at;
  updated_at = db.clock;
}

abbrev pub fresh_balance : LedgerBalance → Database → ProductBalance
fresh_balance l db = record {
  product_id = l.product_id;
  qty = l.qty;
  last_movement_at = l.last_movement_at;
  updated_at = db.clock;
}

abbrev pub rebuild_rows : Uuid → List Product → Database → List ProductBalance
rebuild_rows user [] db = db.balances
rebuild_rows user (p ∷ ps) db =
    let rest = rebuild_rows user ps db in
    let l = get_product_ledger_balance_sql user p.id db in
    if p.user_id == user then upsert (rebuilt l db) (fresh_balance l db) rest else rest

unfoldable pub rebuild_product_balances_sql : Uuid → Database → Outcome (Unit {0})
unfolding get_product_ledger_balance_sql
rebuild_product_balances_sql user db =
    row tt (record db { balances = rebuild_rows user db.products db })

unfoldable pub increment_product_balance : IncrementProductBalanceParams → Tx ProductBalance
unfolding statement increment_product_balance_sql
increment_product_balance params = statement (increment_product_balance_sql params)

unfoldable pub upsert_product_balance : UpsertProductBalanceParams → Tx ProductBalance
unfolding statement upsert_product_balance_sql
upsert_product_balance params = statement (upsert_product_balance_sql params)

unfoldable pub list_product_balances : Uuid → Tx (List ProductBalance)
unfolding select_rows list_product_balances_sql
list_product_balances user = select_rows (list_product_balances_sql user)

unfoldable pub rebuild_product_balances : Uuid → Tx (Unit {0})
unfolding statement rebuild_product_balances_sql
rebuild_product_balances user = statement (rebuild_product_balances_sql user)
