-- ===== src/Products/Changes.antt =====
-- What the other operations see of an update or a deletion (server/internal/products/service.go): the
-- answers of GetProductByID before and after it.
use stok_sync.Common.{Option, none, some, true, false, is_some, ◌≡◌, refl, ap, arith, ◌==◌}
use stok_sync.Common.Int.{pos, ◌+ℤ◌, ◌≤ℤ◌}
use stok_sync.Common.Lists.{find-holds}
use stok_sync.Errors.{Uuid}
use stok_sync.Db.Types.{Database, Product, UpdateProductParams, SoftDeleteProductParams}
use stok_sync.Db.Tx.{TxState}
use stok_sync.Db.Tx.Ends.{Ends, Ends-mono}
use stok_sync.Db.Products.{edited, tombstone, update_matches, delete_matches, get_product_by_id_sql}
use stok_sync.Consistency.{DistinctIds}
use stok_sync.Movements.Effect.{Untouched}
use stok_sync.Products.{
  update_product_in_transaction_normalized, soft_delete_product_in_transaction_normalized,
}
use stok_sync.Products.Effect.{Updated, Deleted, update-Ends, delete-Ends}
use stok_sync.Products.Keyed.{keyed-find, keyed-changed, others_kept}

-- The fields that a client edits.
abbrev pub Carries : UpdateProductParams → Product → Type 0
Carries input p =
    (p.barcode ≡ input.barcode)
    × (p.sku ≡ input.sku)
    × (p.name ≡ input.name)
    × (p.description ≡ input.description)
    × (p.unit ≡ input.unit)
    × (p.category ≡ input.category)
    × (p.min_stock ≡ input.min_stock)

-- The account's product, not deleted.
abbrev pub Held : Uuid → Product → Type 0
Held user p = (p.user_id ≡ user) × (p.deleted_at ≡ none)

-- Every other product is as it was.
abbrev pub OthersKept : Uuid → Database → Database → Type 0
OthersKept key before after =
    (id : Uuid)
    → (id == key) ≡ false
    → get_product_by_id_sql id after ≡ get_product_by_id_sql id before

abbrev pub Edits : UpdateProductParams → TxState → Product → TxState → Type 0
Edits input s p t =
    (old : Product) × (get_product_by_id_sql input.id s.db ≡ some old)
    × Held input.user_id old
    × (old.version ≡ input.base_version)
    × (get_product_by_id_sql input.id t.db ≡ some p)
    × Held input.user_id p
    × Carries input p
    × (p.version ≡ input.base_version +ℤ pos 1)
    × (p.created_at ≡ old.created_at)
    × OthersKept input.id s.db t.db

abbrev pub Removes : SoftDeleteProductParams → TxState → Product → TxState → Type 0
Removes input s p t =
    (old : Product) × (get_product_by_id_sql input.id s.db ≡ some old)
    × Held input.user_id old
    × (input.base_version ≤ℤ old.version)
    × (get_product_by_id_sql input.id t.db ≡ some p)
    × (p.user_id ≡ input.user_id)
    × (p.deleted_at ≡ some s.db.clock)
    × (p.version ≡ old.version +ℤ pos 1)
    × (p.name ≡ old.name)
    × (p.barcode ≡ old.barcode)
    × OthersKept input.id s.db t.db

is_some-none : {A : Type 0} (o : Option A) → is_some o ≡ false → o ≡ none
is_some-none none h = refl
is_some-none (some x) h = cc

update_matches-parts :
    (input : UpdateProductParams) (p : Product)
    → update_matches input p ≡ true
    → (p.id ≡ input.id)
      × (p.user_id ≡ input.user_id)
      × (is_some p.deleted_at ≡ false)
      × (p.version ≡ input.base_version)
update_matches-parts input p h = (ground arith, ground arith, ground arith, ground arith)

delete_matches-parts :
    (input : SoftDeleteProductParams) (p : Product)
    → delete_matches input p ≡ true
    → (p.id ≡ input.id)
      × (p.user_id ≡ input.user_id)
      × (is_some p.deleted_at ≡ false)
      × (input.base_version ≤ℤ p.version)
delete_matches-parts input p h = (ground arith, ground arith, ground arith, ground arith)

Updated-Edits :
    (input : UpdateProductParams) (s : TxState)
    → DistinctIds s.db.products
    → (p : Product) (t : TxState) → Updated input s p t
    → Edits input s p t
unfolding get_product_by_id_sql
Updated-Edits input s distinct p t (old, found, made, grown, live) =
    let ps = s.db.products in
    let hit = update_matches input in
    let keyed : (q : Product) → hit q ≡ true → q.id ≡ input.id =
      λ q h. (update_matches-parts input q h).0 in
    let (id, owned, active, version) =
      update_matches-parts input old (find-holds hit ps old found) in
    rw (made, grown)
      (
        old,
        keyed-find input.id hit keyed ps old distinct found,
        (owned, is_some-none old.deleted_at active),
        version,
        keyed-changed input.id hit keyed (edited input s.db) (λ q. refl) ps old distinct found,
        (owned, is_some-none old.deleted_at active),
        (refl, refl, refl, refl, refl, refl, refl),
        ap (λ v. v +ℤ pos 1) version,
        refl,
        λ i other. others_kept input.id hit keyed (edited input s.db) (λ q. refl) ps i other,
      )

Deleted-Removes :
    (input : SoftDeleteProductParams) (s : TxState)
    → DistinctIds s.db.products
    → (p : Product) (t : TxState) → Deleted input s p t
    → Removes input s p t
unfolding get_product_by_id_sql
Deleted-Removes input s distinct p t (old, found, made, grown, live) =
    let ps = s.db.products in
    let hit = delete_matches input in
    let keyed : (q : Product) → hit q ≡ true → q.id ≡ input.id =
      λ q h. (delete_matches-parts input q h).0 in
    let (id, owned, active, version) =
      delete_matches-parts input old (find-holds hit ps old found) in
    rw (made, grown)
      (
        old,
        keyed-find input.id hit keyed ps old distinct found,
        (owned, is_some-none old.deleted_at active),
        version,
        keyed-changed input.id hit keyed (tombstone input s.db) (λ q. refl) ps old distinct found,
        owned,
        refl,
        refl,
        refl,
        refl,
        λ i other. others_kept input.id hit keyed (tombstone input s.db) (λ q. refl) ps i other,
      )

-- If product keys are distinct, an update that fails leaves the tables and the savepoint as they were,
-- and after one that succeeds: the lookup of its key had answered a product of the account, not deleted,
-- with the base version; it now answers the product that the update returns, which is the
-- account's, not deleted, has the input's fields, the version after the base version and the old
-- instant of creation; and the lookup of every other key answers what it did.
pub update-Edits :
    (input : UpdateProductParams) (s : TxState)
    → DistinctIds s.db.products
    → Ends (Untouched s) (Edits input s) (update_product_in_transaction_normalized input s)
update-Edits input s distinct =
    Ends-mono (Untouched s) (Updated input s) (Edits input s)
      (update_product_in_transaction_normalized input s) (update-Ends input s)
      (Updated-Edits input s distinct)

-- If product keys are distinct, a deletion that fails leaves the tables and the savepoint as they were,
-- and after one that succeeds: the lookup of its key had answered a product of the account, not deleted,
-- with a version that is at least the base version; it now answers the product that the deletion
-- returns, which is the account's, deleted at the statement's instant, and has the next version
-- and the old name and barcode; and the lookup of every other key answers what it did.
pub delete-Removes :
    (input : SoftDeleteProductParams) (s : TxState)
    → DistinctIds s.db.products
    → Ends (Untouched s) (Removes input s) (soft_delete_product_in_transaction_normalized input s)
delete-Removes input s distinct =
    Ends-mono (Untouched s) (Deleted input s) (Removes input s)
      (soft_delete_product_in_transaction_normalized input s) (delete-Ends input s)
      (Deleted-Removes input s distinct)
