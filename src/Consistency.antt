-- ===== src/Consistency.antt =====
-- The rows of `products`, `stock_movements` and `product_balances` as one state: the keys and
-- references that PostgreSQL keeps, and the projection that the services keep.
pub mod Upsert
pub mod Ledger
pub mod Catalog
pub mod Step
pub mod Keys
use stok_sync.Common.{Option, some, Bool, false, true, List, [], ◌∷◌, ◌≡◌, ◌==◌}
use stok_sync.Common.Lists.{All, find, exists_row}
use stok_sync.Db.Types.{Database, Product, StockMovement, ProductBalance}
use stok_sync.Db.Movements.{sum_delta, max_occurred_at}
use stok_sync.Db.Balances.{of_id, owned_product}

-- The primary key of `products`.
abbrev pub DistinctIds : List Product → Type 0
DistinctIds [] = Unit
DistinctIds (p ∷ ps) = (exists_row (λ q. q.id == p.id) ps ≡ false) × DistinctIds ps

-- The primary key of `product_balances`.
abbrev pub DistinctBalances : List ProductBalance → Type 0
DistinctBalances [] = Unit
DistinctBalances (b ∷ bs) = (exists_row (of_id b.product_id) bs ≡ false) × DistinctBalances bs

-- The projection row of a product holds the sum and the latest instant of its ledger rows.
abbrev pub Projected : List StockMovement → List ProductBalance → Product → Type 0
Projected ms bs p =
    (b : ProductBalance) × (find (of_id p.id) bs ≡ some b)
    × (b.qty ≡ sum_delta p.user_id p.id ms)
    × (b.last_movement_at ≡ max_occurred_at p.user_id p.id ms)

-- The foreign key (user_id, product_id) of `stock_movements`.
abbrev pub Referenced : List Product → StockMovement → Type 0
Referenced ps m = exists_row (owned_product m.user_id m.product_id) ps ≡ true

pub record IsConsistent (db : Database) : Type 0 where
  pub distinct : DistinctIds db.products
  pub referenced : All (Referenced db.products) db.movements
  pub projected : All (Projected db.movements db.balances) db.products
