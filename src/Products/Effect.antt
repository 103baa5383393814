-- ===== src/Products/Effect.antt =====
-- The effect of each catalog mutation on the tables: nothing on an error, and one row otherwise.
use stok_sync.Common.{
  none, some, false, List, ◌∷◌, ◌≡◌, refl, arith, ◌==◌, inl, inr, Option-cases, ==_refl, ap, ◌∙◌,
}
use stok_sync.Common.Int.{pos}
use stok_sync.Common.Lists.{find, exists_row, update_rows}
use stok_sync.Errors.{Error, Result, ok, err, no_rows, tx_aborted, Uuid}
use stok_sync.Db.Types.{
  Database, Product, ProductBalance, CreateProductParams, UpdateProductParams,
  SoftDeleteProductParams, UpsertProductBalanceParams,
}
use stok_sync.Db.Tx.{TxState, map_error}
use stok_sync.Db.Tx.Ends.{Ends, then-Ends, Ends-mono}
use stok_sync.Db.Products.{
  created, edited, tombstone, update_matches, delete_matches, insert_product, update_product,
  soft_delete_product,
}
use stok_sync.Db.Balances.{upsert, of_id, set_balance, new_balance, upsert_product_balance}
use stok_sync.Movements.Effect.{Untouched, find-upsert}
use stok_sync.Products.{
  or_classify, zero_balance, map_mutation_error, create_product_in_transaction_normalized,
  update_product_in_transaction_normalized, soft_delete_product_in_transaction_normalized,
}

abbrev pub zero : CreateProductParams → UpsertProductBalanceParams
zero input = record {
  user_id = input.user_id;
  product_id = input.id;
  qty = pos 0;
  last_movement_at = none;
}

abbrev with_product : CreateProductParams → Database → Database
with_product input db = record db { products = created input db ∷ db.products }

-- The database after a product was created, updated or deleted.
abbrev pub product_added : CreateProductParams → Database → Database
product_added input db = record db {
  products = created input db ∷ db.products;
  balances = upsert (set_balance (zero input) db) (new_balance (zero input) db) db.balances;
}

abbrev pub product_edited : UpdateProductParams → Database → Database
product_edited input db = record db {
  products = update_rows (update_matches input) (edited input db) db.products;
}

abbrev pub product_deleted : SoftDeleteProductParams → Database → Database
product_deleted input db = record db {
  products = update_rows (delete_matches input) (tombstone input db) db.products;
}

abbrev pub Inserted : CreateProductParams → TxState → Product → TxState → Type 0
Inserted input s p t =
    (p ≡ created input s.db)
    × (t ≡ record s { db = with_product input s.db })
    × (s.aborted ≡ false)
    × (exists_row (λ q. q.id == input.id) s.db.products ≡ false)

abbrev pub Created : CreateProductParams → TxState → Product → TxState → Type 0
Created input s p t =
    (p ≡ created input s.db)
    × (t ≡ record s { db = product_added input s.db })
    × (s.aborted ≡ false)
    × (exists_row (λ q. q.id == input.id) s.db.products ≡ false)
    × (p.version ≡ pos 1)
    × (p.deleted_at ≡ none)

abbrev pub Updated : UpdateProductParams → TxState → Product → TxState → Type 0
Updated input s p t =
    (old : Product) × (find (update_matches input) s.db.products ≡ some old)
    × (p ≡ edited input s.db old)
    × (t ≡ record s { db = product_edited input s.db })
    × (s.aborted ≡ false)

abbrev pub Deleted : SoftDeleteProductParams → TxState → Product → TxState → Type 0
Deleted input s p t =
    (old : Product) × (find (delete_matches input) s.db.products ≡ some old)
    × (p ≡ tombstone input s.db old)
    × (t ≡ record s { db = product_deleted input s.db })
    × (s.aborted ≡ false)

insert-Ends :
    (input : CreateProductParams) (s : TxState)
    → Ends (Untouched s) (Inserted input s) (map_error map_mutation_error (insert_product input) s)
unfolding insert_product
insert-Ends input s = ground arith

zero_balance-lem :
    (input : CreateProductParams) (s : TxState)
    → s.aborted ≡ false
    → zero_balance input (created input s.db) (record s { db = with_product input s.db })
      ≡ (ok (created input s.db), record s { db = product_added input s.db })
unfolding upsert_product_balance
zero_balance-lem input s live = elim (Option-cases (find (of_id input.id) after)) [
  | inl e ↦ absurd (find-upsert change fresh s.db.balances (λ b. refl) e)
  | inr (b, e) ↦ ground (arith, ==_refl input.id, ==_refl input.user_id)
]
  where
    change : ProductBalance → ProductBalance
    change = set_balance (zero input) s.db

    fresh : ProductBalance
    fresh = new_balance (zero input) s.db

    after : List ProductBalance
    after = upsert change fresh s.db.balances

-- A creation that fails leaves the tables and the savepoint as they were. One that succeeds had a new
-- identifier, and has added the product at version 1 and its zero balance.
pub create-Ends :
    (input : CreateProductParams) (s : TxState)
    → Ends (Untouched s) (Created input s) (create_product_in_transaction_normalized input s)
unfolding create_product_in_transaction_normalized
create-Ends input s =
    then-Ends (Untouched s) (Created input s) (Inserted input s) (zero_balance input)
      (map_error map_mutation_error (insert_product input) s) (insert-Ends input s)
      λ p t (row, grown, live, new).
        rw (row, grown, zero_balance-lem input s live) (refl, refl, live, new, refl, refl)

or_classify-err :
    (user id : Uuid) (e : Error) (s : TxState)
    → Ends (λ _ t. t ≡ s) (λ _ _. ⊥) (or_classify user id (err e) s)
unfolding or_classify
or_classify-err user id no_rows s = ground arith
or_classify-err user id tx_aborted s = refl
or_classify-err user id _ s = refl

abbrev UpdatedFrom : UpdateProductParams → TxState → Product → Product → TxState → Type 0
UpdatedFrom input s old p t =
    (p ≡ edited input s.db old)
    × (t ≡ record s { db = product_edited input s.db })
    × (s.aborted ≡ false)

-- A call that leaves the state alone, where that had the tables of `s`.
still :
    (Q : Product → TxState → Type 0) (s t : TxState)
    → (t.db ≡ s.db) × (t.savepoint ≡ s.savepoint)
    → (r : Result Product × TxState) → Ends (λ _ u. u ≡ t) (λ _ _. ⊥) r
    → Ends (Untouched s) Q r
still Q s t same (ok p, u) h = absurd h
still Q s t same (err e, u) h = (ap (λ v. v.db) h ∙ same.0, ap (λ v. v.savepoint) h ∙ same.1)

update_found :
    (input : UpdateProductParams) (s : TxState) (old : Product)
    → find (update_matches input) s.db.products ≡ some old
    → Ends (Untouched s) (UpdatedFrom input s old) (update_product input s)
unfolding update_product
update_found input s old found = ground arith

update_missing :
    (input : UpdateProductParams) (s : TxState)
    → find (update_matches input) s.db.products ≡ none
    → Ends (Untouched s) (Updated input s) (update_product input s)
unfolding update_product
update_missing input s missing = ground arith

update_row-Ends :
    (input : UpdateProductParams) (s : TxState)
    → Ends (Untouched s) (Updated input s) (update_product input s)
update_row-Ends input s = elim (Option-cases (find (update_matches input) s.db.products)) [
  | inl missing ↦ update_missing input s missing
  | inr (old, found) ↦
      Ends-mono (Untouched s) (UpdatedFrom input s old) (Updated input s) (update_product input s)
        (update_found input s old found) (λ p t h. (old, found, h.0, h.1, h.2))
]

-- An update that fails leaves the tables and the savepoint as they were. One that succeeds found a row
-- that its conditions match (the product's key, the account, the base version, not deleted),
-- and has changed exactly the matching rows, to the input's fields and the next version.
pub update-Ends :
    (input : UpdateProductParams) (s : TxState)
    → Ends (Untouched s) (Updated input s) (update_product_in_transaction_normalized input s)
unfolding update_product_in_transaction_normalized or_classify
update-Ends input s = go (update_product input s) (update_row-Ends input s)
  where
    go :
        (r : Result Product × TxState)
        → Ends (Untouched s) (Updated input s) r
        → Ends (Untouched s) (Updated input s) (or_classify input.user_id input.id r.0 r.1)
    go (ok p, t) h = h
    go (err e, t) h =
        still (Updated input s) s t h (or_classify input.user_id input.id (err e) t)
          (or_classify-err input.user_id input.id e t)

abbrev DeletedFrom : SoftDeleteProductParams → TxState → Product → Product → TxState → Type 0
DeletedFrom input s old p t =
    (p ≡ tombstone input s.db old)
    × (t ≡ record s { db = product_deleted input s.db })
    × (s.aborted ≡ false)

delete_found :
    (input : SoftDeleteProductParams) (s : TxState) (old : Product)
    → find (delete_matches input) s.db.products ≡ some old
    → Ends (Untouched s) (DeletedFrom input s old) (soft_delete_product input s)
unfolding soft_delete_product
delete_found input s old found = ground arith

delete_missing :
    (input : SoftDeleteProductParams) (s : TxState)
    → find (delete_matches input) s.db.products ≡ none
    → Ends (Untouched s) (Deleted input s) (soft_delete_product input s)
unfolding soft_delete_product
delete_missing input s missing = ground arith

delete_row-Ends :
    (input : SoftDeleteProductParams) (s : TxState)
    → Ends (Untouched s) (Deleted input s) (soft_delete_product input s)
delete_row-Ends input s = elim (Option-cases (find (delete_matches input) s.db.products)) [
  | inl missing ↦ delete_missing input s missing
  | inr (old, found) ↦
      Ends-mono (Untouched s) (DeletedFrom input s old) (Deleted input s)
        (soft_delete_product input s) (delete_found input s old found)
        (λ p t h. (old, found, h.0, h.1, h.2))
]

-- A deletion that fails leaves the tables and the savepoint as they were. One that succeeds found a row
-- that its conditions match (the product's key, the account, a version that is at least the base
-- version, not deleted), and has set the instant of deletion and the next version there.
pub delete-Ends :
    (input : SoftDeleteProductParams) (s : TxState)
    → Ends (Untouched s) (Deleted input s) (soft_delete_product_in_transaction_normalized input s)
unfolding soft_delete_product_in_transaction_normalized or_classify
delete-Ends input s = go (soft_delete_product input s) (delete_row-Ends input s)
  where
    go :
        (r : Result Product × TxState)
        → Ends (Untouched s) (Deleted input s) r
        → Ends (Untouched s) (Deleted input s) (or_classify input.user_id input.id r.0 r.1)
    go (ok p, t) h = h
    go (err e, t) h =
        still (Deleted input s) s t h (or_classify input.user_id input.id (err e) t)
          (or_classify-err input.user_id input.id e t)
