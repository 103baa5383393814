-- ===== src/Products.antt =====
-- server/internal/products/service.go: account-scoped catalog transactions.
pub mod Changes
pub mod Verdict
pub mod Effect
pub mod Keyed
pub mod Stale
use stok_sync.Common.{Option, none, Bool, not, ◌||◌, String, is_some, any_some, if◌then◌else◌, ◌==◌}
use stok_sync.Common.Int.{ℤ, pos, ltb_ℤ, leb_ℤ}
use stok_sync.Common.Text.{str_eq, trim_space, normalize_optional_string}
use stok_sync.Errors.{Uuid, ProductError, Error, product_error, pg_error, no_rows, Result, ok, err}
use stok_sync.Db.Types.{
  Database, Product, CreateProductParams, UpdateProductParams, SoftDeleteProductParams,
}
use stok_sync.Db.Tx.{Tx, pure, fail, from_result, attempt, map_error, with_tx_result, ◌>>=◌}
use stok_sync.Db.Products.{insert_product, get_product_by_id, update_product, soft_delete_product}
use stok_sync.Db.Balances.{upsert_product_balance}

-- `errors.Is(err, target)` for the sentinels that mapMutationError produces.
map_constraint : String → Error
map_constraint name =
    if str_eq name "products_active_barcode_uq"
    then product_error ProductError.barcode_conflict
    else if str_eq name "products_updated_by_device_id_fkey"
        || str_eq name "products_updated_by_device_owner_fkey"
        || str_eq name "products_user_id_fkey"
    then product_error ProductError.ownership_violation
    else if str_eq name "products_pkey"
    then product_error ProductError.product_conflict
    else if str_eq name "products_version_positive_check"
    then product_error ProductError.invalid_input
    else pg_error name

unfoldable pub map_mutation_error : Error → Error
unfolding map_constraint
map_mutation_error (pg_error name) = map_constraint name
map_mutation_error e = e

abbrev default_unit : String
default_unit = "pcs"

-- `strings.TrimSpace(input.Unit)`, or the default for a blank one.
abbrev normalize_unit : String → String
normalize_unit unit =
    let trimmed = trim_space unit in if str_eq trimmed "" then default_unit else trimmed

abbrev negative_min_stock : Option ℤ → Bool
negative_min_stock = any_some (λ n. ltb_ℤ n (pos 0))

unfoldable pub normalize_create_input : CreateProductParams → Result CreateProductParams
unfolding trim_space normalize_optional_string
normalize_create_input input =
    if input.id == 0 || input.user_id == 0 || input.updated_by_device_id == 0
    then err (product_error ProductError.invalid_input)
    else if str_eq (trim_space input.name) ""
    then err (product_error ProductError.invalid_input)
    else if negative_min_stock input.min_stock
    then err (product_error ProductError.invalid_input)
    else ok (record input {
      name = trim_space input.name;
      unit = normalize_unit input.unit;
      barcode = normalize_optional_string input.barcode;
      sku = normalize_optional_string input.sku;
      description = normalize_optional_string input.description;
      category = normalize_optional_string input.category;
    })

unfoldable pub normalize_update_input : UpdateProductParams → Result UpdateProductParams
unfolding trim_space normalize_optional_string
normalize_update_input input =
    if input.id == 0
      || input.user_id == 0
      || input.updated_by_device_id == 0
      || leb_ℤ input.base_version (pos 0)
    then err (product_error ProductError.invalid_input)
    else if str_eq (trim_space input.name) ""
    then err (product_error ProductError.invalid_input)
    else if negative_min_stock input.min_stock
    then err (product_error ProductError.invalid_input)
    else ok (record input {
      name = trim_space input.name;
      unit = normalize_unit input.unit;
      barcode = normalize_optional_string input.barcode;
      sku = normalize_optional_string input.sku;
      description = normalize_optional_string input.description;
      category = normalize_optional_string input.category;
    })

unfoldable pub normalize_delete_input : SoftDeleteProductParams → Result SoftDeleteProductParams
normalize_delete_input input =
    if input.id == 0
      || input.user_id == 0
      || input.updated_by_device_id == 0
      || leb_ℤ input.base_version (pos 0)
    then err (product_error ProductError.invalid_input)
    else ok input

abbrev classify : Uuid → Result Product → Error
classify user (err no_rows) = product_error ProductError.product_not_found
classify user (err e) = e
classify user (ok product) =
    if not (product.user_id == user)
    then product_error ProductError.ownership_violation
    else if is_some product.deleted_at
    then product_error ProductError.product_deleted
    else product_error ProductError.version_conflict

-- The error to return for a mutation that matched no row.
unfoldable pub classify_product_mutation_miss : Uuid → Uuid → Tx Error
unfolding get_product_by_id
classify_product_mutation_miss user id = do
  reply ← attempt (get_product_by_id id)
  pure (classify user reply)

abbrev pub zero_balance : CreateProductParams → Product → Tx Product
zero_balance input product = do
  balance ← map_error map_mutation_error (
      upsert_product_balance (record {
        user_id = input.user_id;
        product_id = input.id;
        qty = pos 0;
        last_movement_at = none;
      }))
  pure product

unfoldable pub create_product_in_transaction_normalized : CreateProductParams → Tx Product
unfolding map_mutation_error
create_product_in_transaction_normalized input = do
  product ← map_error map_mutation_error (insert_product input)
  zero_balance input product

unfoldable pub create_product_in_transaction : CreateProductParams → Tx Product
create_product_in_transaction input = do
  normalized ← from_result (normalize_create_input input)
  create_product_in_transaction_normalized normalized

-- An update that returned no row is classified, any other error is mapped.
unfoldable pub or_classify : Uuid → Uuid → Result Product → Tx Product
unfolding classify_product_mutation_miss map_mutation_error
or_classify user id (ok product) = pure product
or_classify user id (err no_rows) = do fail (← classify_product_mutation_miss user id)
or_classify user id (err e) = fail (map_mutation_error e)

unfoldable pub update_product_in_transaction_normalized : UpdateProductParams → Tx Product
update_product_in_transaction_normalized input = do
  reply ← attempt (update_product input)
  or_classify input.user_id input.id reply

unfoldable pub update_product_in_transaction : UpdateProductParams → Tx Product
update_product_in_transaction input = do
  normalized ← from_result (normalize_update_input input)
  update_product_in_transaction_normalized normalized

unfoldable pub soft_delete_product_in_transaction_normalized : SoftDeleteProductParams → Tx Product
soft_delete_product_in_transaction_normalized input = do
  reply ← attempt (soft_delete_product input)
  or_classify input.user_id input.id reply

unfoldable pub soft_delete_product_in_transaction : SoftDeleteProductParams → Tx Product
soft_delete_product_in_transaction input = do
  normalized ← from_result (normalize_delete_input input)
  soft_delete_product_in_transaction_normalized normalized

-- The service's own transactions: the input is normalized before one is begun, which no write can
-- tell apart.
abbrev pub run_normalized : {A B : Type 0} → Result A → (A → Tx B) → Database → Result B × Database
run_normalized (err e) f db = (err e, db)
run_normalized (ok a) f db = with_tx_result (f a) db

unfoldable pub create_product : CreateProductParams → Database → Result Product × Database
unfolding with_tx_result normalize_create_input create_product_in_transaction_normalized
create_product input =
    run_normalized (normalize_create_input input) create_product_in_transaction_normalized

-- `UpdateProduct` of the service.
unfoldable pub edit_product : UpdateProductParams → Database → Result Product × Database
unfolding with_tx_result normalize_update_input update_product_in_transaction_normalized
edit_product input =
    run_normalized (normalize_update_input input) update_product_in_transaction_normalized

-- `SoftDeleteProduct` of the service.
unfoldable pub delete_product : SoftDeleteProductParams → Database → Result Product × Database
unfolding with_tx_result normalize_delete_input soft_delete_product_in_transaction_normalized
delete_product input =
    run_normalized (normalize_delete_input input) soft_delete_product_in_transaction_normalized
