-- ===== src/Sync/Operations/Outcome.antt =====
-- `applyOperation` as a whole: every operation ends in a rejection that has written nothing, or in
-- an applied result with its domain mutation and its change.
use stok_sync.Common.{Option, Bool, true, ◌≡◌, refl, ap, sym, subst}
use stok_sync.Errors.{Result, ok, err, StocktakeResolution}
use stok_sync.Db.Types.{
  Database, StockMovement, CreateProductParams, UpdateProductParams, SoftDeleteProductParams,
  CreateStockMovementParams,
}
use stok_sync.Db.Tx.{TxState, and_then}
use stok_sync.Db.Tx.Ends.{Ends, Ends-mono}
use stok_sync.Products.{
  create_product_in_transaction, create_product_in_transaction_normalized, normalize_create_input,
  update_product_in_transaction, update_product_in_transaction_normalized, normalize_update_input,
  soft_delete_product_in_transaction, soft_delete_product_in_transaction_normalized,
  normalize_delete_input,
}
use stok_sync.Products.Effect.{Created, Updated, Deleted, create-Ends, update-Ends, delete-Ends}
use stok_sync.Movements.{
  append_movement_in_transaction_with_resolution, normalize_append_input,
  append_in_transaction_with_policy,
}
use stok_sync.Movements.Effect.{Untouched}
use stok_sync.Movements.Append.{Appends, append-Ends}
use stok_sync.Consistency.Step.{DomainStep, moved, added, edited, deleted}
use stok_sync.Sync.Operations.Effect.{Stepped}

-- A step to the database of a state that is known as a whole.
step_to : {d : Database} {t u : TxState} → t ≡ u → DomainStep d u.db → DomainStep d t.db
step_to {d} e h = subst (DomainStep d) (sym (ap (λ v. v.db) e)) h

create_step :
    (n : CreateProductParams) (s : TxState)
    → Ends (Untouched s) (Stepped s) (create_product_in_transaction_normalized n s)
create_step n s =
    Ends-mono (Untouched s) (Created n s) (Stepped s) (create_product_in_transaction_normalized n s)
      (create-Ends n s) (λ p t h. step_to h.1 (added s.db n h.3))

pub create-Stepped :
    (input : CreateProductParams) (s : TxState)
    → Ends (Untouched s) (Stepped s) (create_product_in_transaction input s)
unfolding create_product_in_transaction
create-Stepped input s = go (normalize_create_input input)
  where
    go :
        (r : Result CreateProductParams)
        → Ends (Untouched s) (Stepped s) (and_then create_product_in_transaction_normalized (r, s))
    go (ok n) = create_step n s
    go (err e) = (refl, refl)

update_step :
    (n : UpdateProductParams) (s : TxState)
    → Ends (Untouched s) (Stepped s) (update_product_in_transaction_normalized n s)
update_step n s =
    Ends-mono (Untouched s) (Updated n s) (Stepped s) (update_product_in_transaction_normalized n s)
      (update-Ends n s) (λ p t h. step_to h.3 (edited s.db n h.0 h.1))

pub update-Stepped :
    (input : UpdateProductParams) (s : TxState)
    → Ends (Untouched s) (Stepped s) (update_product_in_transaction input s)
unfolding update_product_in_transaction
update-Stepped input s = go (normalize_update_input input)
  where
    go :
        (r : Result UpdateProductParams)
        → Ends (Untouched s) (Stepped s) (and_then update_product_in_transaction_normalized (r, s))
    go (ok n) = update_step n s
    go (err e) = (refl, refl)

delete_step :
    (n : SoftDeleteProductParams) (s : TxState)
    → Ends (Untouched s) (Stepped s) (soft_delete_product_in_transaction_normalized n s)
delete_step n s =
    Ends-mono (Untouched s) (Deleted n s) (Stepped s)
      (soft_delete_product_in_transaction_normalized n s) (delete-Ends n s)
      (λ p t h. step_to h.3 (deleted s.db n h.0 h.1))

pub delete-Stepped :
    (input : SoftDeleteProductParams) (s : TxState)
    → Ends (Untouched s) (Stepped s) (soft_delete_product_in_transaction input s)
unfolding soft_delete_product_in_transaction
delete-Stepped input s = go (normalize_delete_input input)
  where
    go :
        (r : Result SoftDeleteProductParams)
        → Ends
            (Untouched s)
            (Stepped s)
            (and_then soft_delete_product_in_transaction_normalized (r, s))
    go (ok n) = delete_step n s
    go (err e) = (refl, refl)

abbrev pub Moved : TxState → StockMovement × Option StocktakeResolution → TxState → Type 0
Moved s r t = DomainStep s.db t.db

append_step :
    (n : CreateStockMovementParams) (enforce : Bool) (s : TxState)
    → Ends (Untouched s) (Moved s) (append_in_transaction_with_policy n enforce s)
append_step n enforce s =
    Ends-mono (Untouched s) (Appends n enforce s) (Moved s)
      (append_in_transaction_with_policy n enforce s) (append-Ends n enforce s)
      (λ r t h.
        let (delta, _, written, _, _) = h in
        step_to written.1 (moved s.db (record n { delta = delta }) written.3))

pub append-Moved :
    (input : CreateStockMovementParams) (s : TxState)
    → Ends (Untouched s) (Moved s) (append_movement_in_transaction_with_resolution input s)
unfolding append_movement_in_transaction_with_resolution
append-Moved input s = go (normalize_append_input input)
  where
    go :
        (r : Result CreateStockMovementParams)
        → Ends
            (Untouched s)
            (Moved s)
            (and_then (λ n. append_in_transaction_with_policy n true) (r, s))
    go (ok n) = append_step n true s
    go (err e) = (refl, refl)
