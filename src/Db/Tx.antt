-- ===== src/Db/Tx.antt =====
-- server/internal/db/tx.go, and what it relies on of PostgreSQL: a failed statement aborts its
-- transaction, and a savepoint restores it. Each transaction runs alone on the database.
pub mod Ends
use stok_sync.Common.{Option, none, some, Bool, true, false, List, String, if◌then◌else◌}
use stok_sync.Errors.{Error, no_rows, tx_aborted, no_savepoint, pg_error, Result, ok, err}
use stok_sync.Db.Types.{Database}

-- What one SQL statement does: returns a row and leaves a database, returns no row, or violates
-- the named constraint.
pub data Outcome (A : Type 0) : Type 0 where
  row : A → Database → Outcome A
  no_row : Outcome A
  violation : String → Outcome A

-- An open transaction.
pub record TxState : Type 0 where
  pub db : Database
  pub aborted : Bool
  pub savepoint : Option Database

abbrev pub Tx : Type 0 → Type 0
Tx A = TxState → Result A × TxState

module _ {A : Type 0} where
  abbrev pub pure : A → Tx A
  pure a s = (ok a, s)

  abbrev pub fail : Error → Tx A
  fail e s = (err e, s)

  abbrev pub from_result : Result A → Tx A
  from_result r s = (r, s)

  -- The call with its `error` result looked at by the caller.
  abbrev pub attempt : Tx A → Tx (Result A)
  attempt m s = let (r, s') = m s in (ok r, s')

  -- `if err != nil { return f(err) }`.
  abbrev pub map_error : (Error → Error) → Tx A → Tx A
  map_error f m s = let (r, s') = m s in (elim r [ ok a ↦ ok a | err e ↦ err (f e) ], s')

  abbrev pub settle : TxState → Outcome A → Result A × TxState
  settle s (row a db) = (ok a, record s { db = db })
  settle s no_row = (err no_rows, s)
  settle s (violation name) = (err (pg_error name), record s { aborted = true })

  -- `QueryRow(...).Scan(...)` of one statement.
  unfoldable pub statement : (Database → Outcome A) → Tx A
  statement q s = if s.aborted then (err tx_aborted, s) else settle s (q s.db)

  abbrev pub selected : Database → Option A → Outcome A
  selected db none = no_row
  selected db (some a) = row a db

  -- A SELECT of at most one row.
  unfoldable pub select_one : (Database → Option A) → Tx A
  unfolding statement
  select_one q = statement (λ db. selected db (q db))

  -- `Query(...)` and the loop over its rows.
  unfoldable pub select_rows : (Database → List A) → Tx (List A)
  select_rows q s = if s.aborted then (err tx_aborted, s) else (ok (q s.db), s)

abbrev pub and_then : {A B : Type 0} → (A → Tx B) → Result A × TxState → Result B × TxState
and_then f (ok a, s) = f a s
and_then f (err e, s) = (err e, s)

infixl 5 ◌>>=◌ ◌>>◌
abbrev pub ◌>>=◌ : {A B : Type 0} → Tx A → (A → Tx B) → Tx B
◌>>=◌ m f s = and_then f (m s)

abbrev pub ◌>>◌ : {B : Type 0} → Tx (Unit {0}) → Tx B → Tx B
m >> k = m >>= λ _. k

-- `SAVEPOINT name`, `RELEASE SAVEPOINT name` and `ROLLBACK TO SAVEPOINT name`, for one name.
unfoldable pub set_savepoint : Tx (Unit {0})
set_savepoint s =
    if s.aborted then (err tx_aborted, s) else (ok tt, record s { savepoint = some s.db })

unfoldable pub release_savepoint : Tx (Unit {0})
release_savepoint s = if s.aborted then (err tx_aborted, s) else elim s.savepoint [
  | none ↦ (err no_savepoint, record s { aborted = true })
  | some saved ↦ (ok tt, record s { savepoint = none })
]

unfoldable pub rollback_to_savepoint : Tx (Unit {0})
rollback_to_savepoint s = elim s.savepoint [
  | none ↦ (err no_savepoint, record s { aborted = true })
  | some saved ↦ (ok tt, record s { db = saved; aborted = false })
]

abbrev pub begin : Database → TxState
begin db = record { db = db; aborted = false; savepoint = none }

-- COMMIT of an aborted transaction rolls back, which the driver reports as an error.
abbrev pub commit : {A : Type 0} → Database → Result A × TxState → Result A × Database
commit before (ok a, s) = if s.aborted then (err tx_aborted, before) else (ok a, s.db)
commit before (err e, s) = (err e, before)

-- `WithTxResult` and `WithTx`: the transaction's writes stay only if the callback succeeds.
unfoldable pub with_tx_result : {A : Type 0} → Tx A → Database → Result A × Database
with_tx_result fn db = commit db (fn (begin db))

-- `WithSnapshotResult`: every query of the callback sees the same database.
unfoldable pub with_snapshot_result : {A : Type 0} → Tx A → Database → Result A × Database
with_snapshot_result fn db = commit db (fn (begin db))
