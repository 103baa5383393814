-- ===== src/Movements/Effect.antt =====
-- The effect of an append on the database: nothing on an error, one row and one increment otherwise.
use stok_sync.Common.{
  none, Bool, true, false, ◌&&◌, List, [], ◌∷◌, ◌≡◌, refl, inl, inr, arith, ◌==◌, Option-cases,
}
use stok_sync.Common.Lists.{exists_row, find, update_rows}
use stok_sync.Errors.{Error, Result, ok, err, Uuid, no_rows, tx_aborted}
use stok_sync.Db.Types.{
  Database, StockMovement, CreateStockMovementParams, ProductBalance, Product,
  IncrementProductBalanceParams,
}
use stok_sync.Db.Tx.{TxState, and_then}
use stok_sync.Db.Tx.Ends.{Ends, Reads, then-Reads}
use stok_sync.Db.Products.{is_active}
use stok_sync.Db.Movements.{inserted, insert_stock_movement}
use stok_sync.Db.Balances.{
  upsert, of_id, added, first_balance, owned_product, increment_product_balance,
}
use stok_sync.Movements.{write_movement, write_balance, mapped_or_miss, or_miss}

abbrev pub increment : CreateStockMovementParams → IncrementProductBalanceParams
increment input = record {
  user_id = input.user_id;
  product_id = input.product_id;
  delta = input.delta;
  occurred_at = input.occurred_at;
}

abbrev with_row : CreateStockMovementParams → Database → Database
with_row input db = record db { movements = inserted input db ∷ db.movements }

-- The database after an accepted movement.
abbrev pub appended : CreateStockMovementParams → Database → Database
appended input db = record db {
  movements = inserted input db ∷ db.movements;
  balances = upsert (added (increment input) db) (first_balance (increment input) db) db.balances;
}

abbrev pub active_product : CreateStockMovementParams → Database → Bool
active_product input db =
    exists_row (λ p. (p.id == input.product_id && p.user_id == input.user_id) && is_active p)
      db.products

abbrev RowWritten : CreateStockMovementParams → TxState → StockMovement → TxState → Type 0
RowWritten input s m t =
    (m ≡ inserted input s.db)
    × (t ≡ record s { db = with_row input s.db })
    × (s.aborted ≡ false)
    × (active_product input s.db ≡ true)

abbrev pub Written : CreateStockMovementParams → TxState → StockMovement → TxState → Type 0
Written input s m t =
    (m ≡ inserted input s.db)
    × (t ≡ record s { db = appended input s.db })
    × (s.aborted ≡ false)
    × (active_product input s.db ≡ true)

-- The tables and the savepoint are those of `s`.
abbrev pub Untouched : TxState → Error → TxState → Type 0
Untouched s e t = (t.db ≡ s.db) × (t.savepoint ≡ s.savepoint)

insert-Ends :
    (input : CreateStockMovementParams) (s : TxState)
    → Ends (Untouched s) (RowWritten input s) (insert_stock_movement input s)
unfolding insert_stock_movement
insert-Ends input s = ground arith

find-update :
    (id : Uuid) (change : ProductBalance → ProductBalance) (bs : List ProductBalance)
    → ((b : ProductBalance) → (change b).product_id ≡ b.product_id)
    → exists_row (of_id id) bs ≡ true
    → find (of_id id) (update_rows (of_id id) change bs) ≡ none
    → ⊥
find-update id change [] keeps e h = cc
find-update id change (b ∷ bs) keeps e h = ground (arith, keeps b, find-update id change bs keeps)

pub find-upsert :
    (change : ProductBalance → ProductBalance) (fresh : ProductBalance) (bs : List ProductBalance)
    → ((b : ProductBalance) → (change b).product_id ≡ b.product_id)
    → find (of_id fresh.product_id) (upsert change fresh bs) ≡ none
    → ⊥
find-upsert change fresh bs keeps h = ground (arith, find-update fresh.product_id change bs keeps)

pub owned_of_active :
    (input : CreateStockMovementParams) (ps : List Product)
    → exists_row (λ p. (p.id == input.product_id && p.user_id == input.user_id) && is_active p) ps
      ≡ true
    → exists_row (owned_product input.user_id input.product_id) ps ≡ true
owned_of_active input [] h = cc
owned_of_active input (p ∷ ps) h = ground (arith, owned_of_active input ps)

increment-Ends :
    (input : CreateStockMovementParams) (s : TxState)
    → s.aborted ≡ false
    → exists_row (owned_product input.user_id input.product_id) s.db.products ≡ true
    → (b : ProductBalance) × (increment_product_balance (increment input) s ≡ (
      ok b,
      record s {
        db = record s.db {
          balances =
              upsert
                (added (increment input) s.db)
                (first_balance (increment input) s.db)
                s.db.balances;
        };
      },
    ))
unfolding increment_product_balance
increment-Ends input s live owned = elim (Option-cases (find (of_id input.product_id) after)) [
  | inl e ↦ absurd (find-upsert change fresh s.db.balances (λ b. refl) e)
  | inr (b, e) ↦ (b, ground arith)
]
  where
    change : ProductBalance → ProductBalance
    change = added (increment input) s.db

    fresh : ProductBalance
    fresh = first_balance (increment input) s.db

    after : List ProductBalance
    after = upsert change fresh s.db.balances

pub or_miss-Reads :
    {A : Type 0} (user id : Uuid) (reply : Result A) (s : TxState)
    → Reads s (λ a. reply ≡ ok a) (or_miss user id reply s)
unfolding or_miss
or_miss-Reads user id (ok a) s = (refl, refl)
or_miss-Reads user id (err no_rows) s = ground arith
or_miss-Reads user id (err tx_aborted) s = refl
or_miss-Reads user id (err _) s = refl

mapped-err :
    (input : CreateStockMovementParams) (e : Error) (s : TxState)
    → Reads s (λ _. ⊥) (mapped_or_miss input (err e) s)
unfolding or_miss
mapped-err input no_rows s = ground arith
mapped-err input tx_aborted s = refl
mapped-err input _ s = refl

pub write_balance-lem :
    (input : CreateStockMovementParams) (s : TxState)
    → s.aborted ≡ false
    → active_product input s.db ≡ true
    → write_balance input (inserted input s.db) (record s { db = with_row input s.db })
      ≡ (ok (inserted input s.db), record s { db = appended input s.db })
write_balance-lem input s live active =
    let grown : TxState = record s { db = with_row input s.db } in
    let (b, e) = increment-Ends input grown live (owned_of_active input s.db.products active) in
    rw e refl

write_balance-Ends :
    (input : CreateStockMovementParams) (s : TxState) (m : StockMovement) (t : TxState)
    → RowWritten input s m t
    → Ends (Untouched s) (Written input s) (write_balance input m t)
write_balance-Ends input s m t (row, grown, live, active) =
    rw (row, grown, write_balance-lem input s live active) (refl, refl, live, active)

-- A write that fails leaves the tables as they were, and one that succeeds appends the row and its
-- increment.
pub write_movement-Ends :
    (input : CreateStockMovementParams) (s : TxState)
    → Ends (Untouched s) (Written input s) (write_movement input s)
unfolding write_movement
write_movement-Ends input s = go (insert_stock_movement input s) (insert-Ends input s)
  where
    settled : (r : Result StockMovement × TxState) → Result StockMovement × TxState
    settled r = and_then (write_balance input) (mapped_or_miss input r.0 r.1)

    go :
        (r : Result StockMovement × TxState)
        → Ends (Untouched s) (RowWritten input s) r
        → Ends (Untouched s) (Written input s) (settled r)
    go (ok m, t) h = write_balance-Ends input s m t h
    go (err e, t) h =
        then-Reads (Untouched s) (Written input s) t (λ _. ⊥) (write_balance input)
          (mapped_or_miss input (err e) t) (mapped-err input e t) (λ _. h)
          (λ _ none_made. absurd none_made)
