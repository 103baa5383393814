-- ===== src/Movements/Projection.antt =====
-- The projection of the ledger (server/internal/movements/service.go): its verification and its repair.
pub mod Fits
pub mod Verify
pub mod Rebuild
use stok_sync.Common.{
  Option, none, some, Bool, true, false, not, List, [], ◌∷◌, ◌++◌, String, if◌then◌else◌, ◌==◌, ℕ,
  ltb,
}
use stok_sync.Common.Int.{ℤ, pos, eq_ℤ}
use stok_sync.Common.Lists.{length, exists_row, last_row, sort_by}
use stok_sync.Errors.{Uuid, Time, MovementError, movement_error, Result, ok, err}
use stok_sync.Db.Types.{Database, LedgerBalance, ProductBalance}
use stok_sync.Db.Tx.{Tx, pure, map_error, ◌>>=◌, with_tx_result}
use stok_sync.Db.Movements.{list_ledger_balances}
use stok_sync.Db.Balances.{of_id, list_product_balances, rebuild_product_balances}
use stok_sync.Movements.{map_movement_error}

-- `Kind` is one of the four constants.
pub data MismatchKind : Type 0 where
  missing_projection quantity_mismatch last_movement_mismatch unexpected_projection : MismatchKind

pub record ProjectionMismatch : Type 0 where
  pub product_id : Uuid
  pub kind : MismatchKind
  pub expected_qty : ℤ
  pub actual_qty : Option ℤ
  pub expected_last_at : Option Time
  pub actual_last_at : Option Time

pub record ProjectionVerification : Type 0 where
  pub user_id : Uuid
  pub checked_products : ℕ
  pub mismatches : List ProjectionMismatch
  pub consistent : Bool

unfoldable pub same_time : Option Time → Option Time → Bool
same_time none none = true
same_time none (some t) = false
same_time (some s) none = false
same_time (some s) (some t) = eq_ℤ s t

abbrev pub compared : MismatchKind → LedgerBalance → ProductBalance → ProjectionMismatch
compared kind expected actual = record {
  product_id = expected.product_id;
  kind = kind;
  expected_qty = expected.qty;
  actual_qty = some actual.qty;
  expected_last_at = expected.last_movement_at;
  actual_last_at = actual.last_movement_at;
}

abbrev pub missing : LedgerBalance → ProjectionMismatch
missing expected = record {
  product_id = expected.product_id;
  kind = missing_projection;
  expected_qty = expected.qty;
  actual_qty = none;
  expected_last_at = expected.last_movement_at;
  actual_last_at = none;
}

abbrev pub unexpected : ProductBalance → ProjectionMismatch
unexpected actual = record {
  product_id = actual.product_id;
  kind = unexpected_projection;
  expected_qty = pos 0;
  actual_qty = some actual.qty;
  expected_last_at = none;
  actual_last_at = actual.last_movement_at;
}

abbrev pub differences : LedgerBalance → Option ProductBalance → List ProjectionMismatch
differences expected none = missing expected ∷ []
differences expected (some actual) =
    if not (eq_ℤ actual.qty expected.qty)
    then compared quantity_mismatch expected actual ∷ []
    else if not (same_time expected.last_movement_at actual.last_movement_at)
    then compared last_movement_mismatch expected actual ∷ []
    else []

-- The loop over the ledger's balances. `projectedByID` holds the last row of each identifier.
abbrev pub expected_mismatches : List ProductBalance → List LedgerBalance → List ProjectionMismatch
expected_mismatches projected [] = []
expected_mismatches projected (e ∷ es) =
    differences e (last_row (of_id e.product_id) projected) ++ expected_mismatches projected es

abbrev pub has_ledger : Uuid → LedgerBalance → Bool
has_ledger id l = l.product_id == id

-- The loop over the projection.
abbrev pub unexpected_mismatches :
    List LedgerBalance → List ProductBalance → List ProjectionMismatch
unexpected_mismatches canonical [] = []
unexpected_mismatches canonical (a ∷ rows) =
    let rest = unexpected_mismatches canonical rows in
    if exists_row (has_ledger a.product_id) canonical then rest else unexpected a ∷ rest

abbrev pub by_product : ProjectionMismatch → ProjectionMismatch → Bool
by_product m m' = ltb m.product_id m'.product_id

abbrev pub all_mismatches : List LedgerBalance → List ProductBalance → List ProjectionMismatch
all_mismatches canonical projected =
    expected_mismatches projected canonical ++ unexpected_mismatches canonical projected

unfoldable pub compare_balances :
    Uuid → List LedgerBalance → List ProductBalance → ProjectionVerification
unfolding same_time
compare_balances user canonical projected = record {
  user_id = user;
  checked_products = length canonical;
  mismatches = sort_by by_product (all_mismatches canonical projected);
  consistent = length (sort_by by_product (all_mismatches canonical projected)) == 0;
}

abbrev pub compare_reads : Uuid → Tx ProjectionVerification
compare_reads user = do
  canonical ← list_ledger_balances user
  projected ← list_product_balances user
  pure (compare_balances user canonical projected)

unfoldable pub verify_product_balances : Uuid → Database → Result ProjectionVerification × Database
unfolding with_tx_result
verify_product_balances user db =
    if user == 0
    then (err (movement_error MovementError.invalid_input), db)
    else with_tx_result (compare_reads user) db

-- `RebuildProductBalances` of the service.
unfoldable pub rebuild_balances : Uuid → Database → Result (Unit {0}) × Database
unfolding with_tx_result map_movement_error
rebuild_balances user db =
    if user == 0
    then (err (movement_error MovementError.invalid_input), db)
    else with_tx_result (map_error map_movement_error (rebuild_product_balances user)) db
