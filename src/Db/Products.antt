-- ===== src/Db/Products.antt =====
-- The statements on `products` and `devices` (server/internal/db/queries.go). A function on
-- `Database` is the SQL text, with the constraints of server/migrations; one into `Tx` is the method.
use stok_sync.Common.{
  Option, none, some, Bool, false, not, ◌&&◌, List, ◌∷◌, String, is_some, any_some, if◌then◌else◌,
  ◌==◌,
}
use stok_sync.Common.Int.{pos, ◌+ℤ◌, leb_ℤ, eq_ℤ}
use stok_sync.Common.Text.{str_eq}
use stok_sync.Common.Lists.{find, exists_row, update_rows}
use stok_sync.Errors.{Uuid}
use stok_sync.Db.Types.{
  Database, Product, CreateProductParams, UpdateProductParams, SoftDeleteProductParams, Device,
}
use stok_sync.Db.Tx.{Outcome, row, no_row, violation, Tx, statement, select_one}

abbrev pub is_active : Product → Bool
is_active p = not (is_some p.deleted_at)

-- The foreign key (user_id, device_id) → devices (user_id, id).
abbrev pub owns_device : Uuid → Uuid → List Device → Bool
owns_device user device = exists_row λ d. d.id == device && d.user_id == user

-- The partial unique index `products_active_barcode_uq`: some active row other than `self` has
-- the barcode. The index is on `barcode` alone, over all accounts.
abbrev pub barcode_taken : Uuid → Option String → List Product → Bool
barcode_taken self none ps = false
barcode_taken self (some code) ps =
    exists_row (λ p. not (p.id == self) && is_active p && any_some (str_eq code) p.barcode) ps

abbrev pub created : CreateProductParams → Database → Product
created params db = record {
  id = params.id;
  user_id = params.user_id;
  barcode = params.barcode;
  sku = params.sku;
  name = params.name;
  description = params.description;
  unit = params.unit;
  category = params.category;
  min_stock = params.min_stock;
  version = pos 1;
  updated_at = db.clock;
  updated_by_device_id = params.updated_by_device_id;
  deleted_at = none;
  created_at = db.clock;
}

unfoldable pub insert_product_sql : CreateProductParams → Database → Outcome Product
insert_product_sql params db =
    if exists_row (λ p. p.id == params.id) db.products
    then violation "products_pkey"
    else if barcode_taken params.id params.barcode db.products
    then violation "products_active_barcode_uq"
    else if not (owns_device params.user_id params.updated_by_device_id db.devices)
    then violation "products_updated_by_device_owner_fkey"
    else row (created params db) (record db { products = created params db ∷ db.products })

unfoldable pub get_product_by_id_sql : Uuid → Database → Option Product
get_product_by_id_sql id db = find (λ p. p.id == id) db.products

unfoldable pub get_product_for_update_sql : Uuid → Uuid → Database → Option Product
get_product_for_update_sql user id db =
    find (λ p. (p.id == id && p.user_id == user) && is_active p) db.products

abbrev pub edited : UpdateProductParams → Database → Product → Product
edited params db p = record p {
  barcode = params.barcode;
  sku = params.sku;
  name = params.name;
  description = params.description;
  unit = params.unit;
  category = params.category;
  min_stock = params.min_stock;
  version = p.version +ℤ pos 1;
  updated_at = db.clock;
  updated_by_device_id = params.updated_by_device_id;
}

abbrev pub update_matches : UpdateProductParams → Product → Bool
update_matches params p =
    (p.id == params.id && p.user_id == params.user_id)
    && eq_ℤ p.version params.base_version
    && is_active p

unfoldable pub update_product_sql : UpdateProductParams → Database → Outcome Product
update_product_sql params db = elim (find (update_matches params) db.products) [
  | none ↦ no_row
  | some p ↦
      if barcode_taken params.id params.barcode db.products
      then violation "products_active_barcode_uq"
      else if not (owns_device params.user_id params.updated_by_device_id db.devices)
      then violation "products_updated_by_device_owner_fkey"
      else row (edited params db p) (record db {
        products = update_rows (update_matches params) (edited params db) db.products;
      })
]

abbrev pub tombstone : SoftDeleteProductParams → Database → Product → Product
tombstone params db p = record p {
  deleted_at = some db.clock;
  version = p.version +ℤ pos 1;
  updated_at = db.clock;
  updated_by_device_id = params.updated_by_device_id;
}

abbrev pub delete_matches : SoftDeleteProductParams → Product → Bool
delete_matches params p =
    (p.id == params.id && p.user_id == params.user_id)
    && leb_ℤ params.base_version p.version
    && is_active p

unfoldable pub soft_delete_product_sql : SoftDeleteProductParams → Database → Outcome Product
soft_delete_product_sql params db = elim (find (delete_matches params) db.products) [
  | none ↦ no_row
  | some p ↦
      if not (owns_device params.user_id params.updated_by_device_id db.devices)
      then violation "products_updated_by_device_owner_fkey"
      else row (tombstone params db p) (record db {
        products = update_rows (delete_matches params) (tombstone params db) db.products;
      })
]

-- ORDER BY id LIMIT 1: at most one row is active with the barcode, by the unique index.
unfoldable pub get_active_product_by_barcode_sql : Uuid → String → Database → Option Product
get_active_product_by_barcode_sql user code db =
    find (λ p. p.user_id == user && any_some (str_eq code) p.barcode && is_active p) db.products

unfoldable pub insert_product : CreateProductParams → Tx Product
unfolding statement insert_product_sql
insert_product params = statement (insert_product_sql params)

unfoldable pub get_product_by_id : Uuid → Tx Product
unfolding select_one get_product_by_id_sql
get_product_by_id id = select_one (get_product_by_id_sql id)

unfoldable pub get_active_product_by_barcode : Uuid → String → Tx Product
unfolding select_one get_active_product_by_barcode_sql
get_active_product_by_barcode user code = select_one (get_active_product_by_barcode_sql user code)

unfoldable pub get_product_for_update : Uuid → Uuid → Tx Product
unfolding select_one get_product_for_update_sql
get_product_for_update user id = select_one (get_product_for_update_sql user id)

unfoldable pub update_product : UpdateProductParams → Tx Product
unfolding statement update_product_sql
update_product params = statement (update_product_sql params)

unfoldable pub soft_delete_product : SoftDeleteProductParams → Tx Product
unfolding statement soft_delete_product_sql
soft_delete_product params = statement (soft_delete_product_sql params)
