-- ===== src/Movements/Projection/Verify.antt =====
-- `VerifyProductBalances` reports a consistent projection exactly when the account's rows of it are
-- right (server/internal/movements/service.go).
use stok_sync.Common.{true, false, List, [], ◌∷◌, ◌≡◌, ◌↔◌, refl, sym, ap, ◌∙◌, arith, ◌==◌, ==_lem}
use stok_sync.Common.Lists.{length, exists_row, sort_by, where_rows, All, length-append}
use stok_sync.Common.Rows.{length-sort_by, exists_row-sort_by, All-sort_by, sort_by-All}
use stok_sync.Errors.{Uuid, ok}
use stok_sync.Db.Types.{Database, ProductBalance}
use stok_sync.Db.Tx.{with_tx_result, select_rows}
use stok_sync.Db.Movements.{ledger_balances_of, list_ledger_balances_sql, list_ledger_balances}
use stok_sync.Db.Balances.{owned_product, list_product_balances_sql, list_product_balances}
use stok_sync.Consistency.{DistinctBalances, Projected}
use stok_sync.Movements.Projection.{
  ProjectionVerification, expected_mismatches, unexpected_mismatches, has_ledger, by_product,
  all_mismatches, compare_balances, verify_product_balances,
}
use stok_sync.Movements.Projection.Fits.{
  Fits, expected-Fits, Fits-expected, has_ledger-owned, unexpected_none, where_rows-All, All-Listed,
  mine, ledger-Projected, Projected-ledger,
}

module _ (user : Uuid) (db : Database) where
  known_lem :
      (id : Uuid)
      → exists_row (owned_product user id) db.products ≡ true
      → exists_row (has_ledger id) (list_ledger_balances_sql user db) ≡ true
  unfolding list_ledger_balances_sql
  known_lem id owned =
      exists_row-sort_by (has_ledger id) _ (ledger_balances_of user db.products db)
      ∙ has_ledger-owned user id db.products db
      ∙ owned

  All-known :
      (rows : List ProductBalance)
      → All (λ b. exists_row (owned_product user b.product_id) db.products ≡ true) rows
      → All
          (λ b. exists_row (has_ledger b.product_id) (list_ledger_balances_sql user db) ≡ true)
          rows
  All-known [] h = tt
  All-known (b ∷ rows) h = (known_lem b.product_id h.0, All-known rows h.1)

  none_unexpected :
      unexpected_mismatches (list_ledger_balances_sql user db) (list_product_balances_sql user db)
      ≡ []
  unfolding list_product_balances_sql
  none_unexpected =
      unexpected_none (list_ledger_balances_sql user db) (list_product_balances_sql user db) (
        All-known (list_product_balances_sql user db)
          (All-sort_by _ _ _ (where_rows-All _ db.balances)))

  abbrev found : List stok_sync.Movements.Projection.ProjectionMismatch
  found = all_mismatches (list_ledger_balances_sql user db) (list_product_balances_sql user db)

  -- All mismatches are those of the ledger's balances.
  found_lem :
      length found
      ≡ length (
          expected_mismatches
            (list_product_balances_sql user db)
            (list_ledger_balances_sql user db))
  found_lem =
      length-append
        (expected_mismatches (list_product_balances_sql user db) (list_ledger_balances_sql user db))
        (unexpected_mismatches (list_ledger_balances_sql user db)
          (list_product_balances_sql user db))
      ∙ omega (arith, ap length none_unexpected)

  verify_lem :
      (user == 0) ≡ false
      → verify_product_balances user db ≡ (
        ok (
            compare_balances user
              (list_ledger_balances_sql user db)
              (list_product_balances_sql user db)),
        db,
      )
  unfolding verify_product_balances with_tx_result list_ledger_balances list_product_balances
      select_rows
  verify_lem known = rw known refl

  consistent-Projected :
      DistinctBalances db.balances
      → (length (sort_by by_product found) == 0) ≡ true
      → All (Projected db.movements db.balances) (where_rows (mine user) db.products)
  unfolding list_ledger_balances_sql
  consistent-Projected distinct h =
      ledger-Projected user db distinct db.products (All-Listed db.products) (
        sort_by-All (Fits (list_product_balances_sql user db)) _ _ (
          expected-Fits (list_product_balances_sql user db) (list_ledger_balances_sql user db) (
            sym found_lem
            ∙ sym (length-sort_by by_product found)
            ∙ ==_lem (length (sort_by by_product found)) 0 h)))

  Projected-consistent :
      DistinctBalances db.balances
      → All (Projected db.movements db.balances) (where_rows (mine user) db.products)
      → (length (sort_by by_product found) == 0) ≡ true
  unfolding list_ledger_balances_sql
  Projected-consistent distinct h =
      rw
        (
          length-sort_by by_product found,
          found_lem,
          Fits-expected (list_product_balances_sql user db) (list_ledger_balances_sql user db) (
              All-sort_by (Fits (list_product_balances_sql user db)) _ _
                (Projected-ledger user db distinct db.products (All-Listed db.products) h)),
        )
        refl

  -- For an account that is not nil, and at most one projection row for each product: the verification
  -- succeeds, writes nothing, and reports consistency exactly when each product of the account has
  -- a projection row with the sum and the latest instant of its ledger rows.
  pub verify_product_balances-Projected :
      (user == 0) ≡ false
      → DistinctBalances db.balances
      → (v : ProjectionVerification) × (verify_product_balances user db ≡ (ok v, db))
        × ((v.consistent ≡ true)
            ↔ All (Projected db.movements db.balances) (where_rows (mine user) db.products))
  unfolding compare_balances
  verify_product_balances-Projected known distinct = (
    compare_balances user (list_ledger_balances_sql user db) (list_product_balances_sql user db),
    verify_lem known,
    (consistent-Projected distinct, Projected-consistent distinct),
  )
