-- ===== src/Consistency/Step.antt =====
-- The four domain mutations of the catalog and the ledger as one step relation, and what each keeps.
use stok_sync.Common.{true, false, List, [], ◌∷◌, ◌++◌, ◌≡◌, refl, ◌==◌, some}
use stok_sync.Common.Lists.{exists_row, find}
use stok_sync.Db.Types.{
  Database, Product, StockMovement, CreateProductParams, UpdateProductParams,
  SoftDeleteProductParams, CreateStockMovementParams,
}
use stok_sync.Db.Products.{update_matches, delete_matches}
use stok_sync.Movements.Effect.{appended, active_product}
use stok_sync.Products.Effect.{product_added, product_edited, product_deleted}
use stok_sync.Consistency.{IsConsistent}
use stok_sync.Consistency.Ledger.{appended-IsConsistent}
use stok_sync.Consistency.Catalog.{added-IsConsistent, edited-IsConsistent, deleted-IsConsistent}

pub data DomainStep : Database → Database → Type 0 where
  moved :
      (db : Database) (input : CreateStockMovementParams)
      → active_product input db ≡ true
      → DomainStep db (appended input db)
  added :
      (db : Database) (input : CreateProductParams)
      → exists_row (λ q. q.id == input.id) db.products ≡ false
      → DomainStep db (product_added input db)
  edited :
      (db : Database) (input : UpdateProductParams) (old : Product)
      → find (update_matches input) db.products ≡ some old
      → DomainStep db (product_edited input db)
  deleted :
      (db : Database) (input : SoftDeleteProductParams) (old : Product)
      → find (delete_matches input) db.products ≡ some old
      → DomainStep db (product_deleted input db)

pub step-IsConsistent : {db db' : Database} → DomainStep db db' → IsConsistent db → IsConsistent db'
step-IsConsistent (moved db input active) c = appended-IsConsistent input db active c
step-IsConsistent (added db input new) c = added-IsConsistent input db new c
step-IsConsistent (edited db input old found) c = edited-IsConsistent input db c
step-IsConsistent (deleted db input old found) c = deleted-IsConsistent input db c

-- The tables of the synchronization protocol, which no domain mutation writes.
abbrev pub SameLog : Database → Database → Type 0
SameLog db db' =
    (db'.change_log ≡ db.change_log)
    × (db'.last_seq ≡ db.last_seq)
    × (db'.sync_ops ≡ db.sync_ops)
    × (db'.devices ≡ db.devices)
    × (db'.clock ≡ db.clock)

pub step-SameLog : {db db' : Database} → DomainStep db db' → SameLog db db'
step-SameLog (moved db input active) = (refl, refl, refl, refl, refl)
step-SameLog (added db input new) = (refl, refl, refl, refl, refl)
step-SameLog (edited db input old found) = (refl, refl, refl, refl, refl)
step-SameLog (deleted db input old found) = (refl, refl, refl, refl, refl)

-- The ledger only grows, by at most one row, at its head.
abbrev pub Grows : List StockMovement → List StockMovement → Type 0
Grows ms ms' = (front : List StockMovement) × (ms' ≡ front ++ ms)

pub step-Grows : {db db' : Database} → DomainStep db db' → Grows db.movements db'.movements
step-Grows (moved db input active) = (stok_sync.Db.Movements.inserted input db ∷ [], refl)
step-Grows (added db input new) = ([], refl)
step-Grows (edited db input old found) = ([], refl)
step-Grows (deleted db input old found) = ([], refl)
