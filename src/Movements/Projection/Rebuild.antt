-- ===== src/Movements/Projection/Rebuild.antt =====
-- `RebuildProductBalances` repairs the projection, whatever it held (server/internal/movements/service.go).
use stok_sync.Common.{
  Option, none, some, true, false, List, [], ◌∷◌, ◌≡◌, refl, ◌∙◌, arith, ◌==◌, ==_lem, Bool-cases,
  inl, inr,
}
use stok_sync.Common.Lists.{exists_row, find, where_rows, All}
use stok_sync.Errors.{Uuid, ok}
use stok_sync.Db.Types.{Database, Product, LedgerBalance, ProductBalance}
use stok_sync.Db.Tx.{with_tx_result, statement}
use stok_sync.Db.Movements.{get_product_ledger_balance_sql}
use stok_sync.Db.Balances.{
  of_id, upsert, rebuilt, fresh_balance, rebuild_rows, rebuild_product_balances,
  rebuild_product_balances_sql,
}
use stok_sync.Consistency.{DistinctIds, DistinctBalances, Projected}
use stok_sync.Consistency.Keys.{upsert-DistinctBalances}
use stok_sync.Consistency.Upsert.{changed, find-upsert_self, find-upsert_ne}
use stok_sync.Movements.Projection.{
  rebuild_balances, verify_product_balances, ProjectionVerification,
}
use stok_sync.Movements.Projection.Fits.{mine}
use stok_sync.Movements.Projection.Verify.{verify_product_balances-Projected}

module _ (user : Uuid) (db : Database) where
  abbrev entry : Product → LedgerBalance
  entry p = get_product_ledger_balance_sql user p.id db

  abbrev row_of : Product → List ProductBalance → List ProductBalance
  row_of p = upsert (rebuilt (entry p) db) (fresh_balance (entry p) db)

  repaired :
      (p : Product) (o : Option ProductBalance)
      → ((changed (rebuilt (entry p) db) (fresh_balance (entry p) db) o).qty ≡ (entry p).qty)
        × ((changed (rebuilt (entry p) db) (fresh_balance (entry p) db) o).last_movement_at
            ≡ (entry p).last_movement_at)
  repaired p none = (refl, refl)
  repaired p (some b) = (refl, refl)

  self-Projected :
      (p : Product) (bs : List ProductBalance)
      → p.user_id ≡ user
      → Projected db.movements (row_of p bs) p
  unfolding get_product_ledger_balance_sql
  self-Projected p bs own =
      let (q, l) = repaired p (find (of_id p.id) bs) in
      (
        changed (rebuilt (entry p) db) (fresh_balance (entry p) db) (find (of_id p.id) bs),
        find-upsert_self (rebuilt (entry p) db) (λ _. refl) (fresh_balance (entry p) db) bs,
        rw own q,
        rw own l,
      )

  others-Projected :
      (p : Product) (bs : List ProductBalance) (qs : List Product)
      → exists_row (λ q. q.id == p.id) qs ≡ false
      → All (Projected db.movements bs) (where_rows (mine user) qs)
      → All (Projected db.movements (row_of p bs)) (where_rows (mine user) qs)
  unfolding get_product_ledger_balance_sql
  others-Projected p bs [] new h = tt
  others-Projected p bs (q ∷ qs) new h = elim (Bool-cases (q.user_id == user)) [
    | inr other ↦ rw other (others-Projected p bs qs (ground arith) (rw other at h))
    | inl own ↦
        let h' = rw own at h in
        let (b, e, qty, last) = h'.0 in
        let miss : (q.id == p.id) ≡ false = ground arith in
        rw own (
          (
            b,
            find-upsert_ne (rebuilt (entry p) db) (λ _. refl) q.id (fresh_balance (entry p) db) bs
                  miss
                ∙ e,
            qty,
            last,
          ),
          others-Projected p bs qs (ground arith) h'.1,
        )
  ]

  rebuilt-Projected :
      (ps : List Product)
      → DistinctIds ps
      → All (Projected db.movements (rebuild_rows user ps db)) (where_rows (mine user) ps)
  rebuilt-Projected [] d = tt
  rebuilt-Projected (p ∷ ps) d = elim (Bool-cases (p.user_id == user)) [
    | inr other ↦ rw other (rebuilt-Projected ps d.1)
    | inl own ↦ rw own (
      self-Projected p (rebuild_rows user ps db) (==_lem p.user_id user own),
      others-Projected p (rebuild_rows user ps db) ps d.0 (rebuilt-Projected ps d.1),
    )
  ]

  rebuilt-DistinctBalances :
      (ps : List Product)
      → DistinctBalances db.balances
      → DistinctBalances (rebuild_rows user ps db)
  rebuilt-DistinctBalances [] d = d
  rebuilt-DistinctBalances (p ∷ ps) d = elim (Bool-cases (p.user_id == user)) [
    | inr other ↦ rw other (rebuilt-DistinctBalances ps d)
    | inl own ↦ rw own (
        upsert-DistinctBalances (rebuilt (entry p) db) (λ _. refl) (fresh_balance (entry p) db)
          (rebuild_rows user ps db) (rebuilt-DistinctBalances ps d))
  ]

  abbrev repaired_db : Database
  repaired_db = record db { balances = rebuild_rows user db.products db }

  rebuild_lem : (user == 0) ≡ false → rebuild_balances user db ≡ (ok tt, repaired_db)
  unfolding rebuild_balances with_tx_result rebuild_product_balances statement
      rebuild_product_balances_sql
  rebuild_lem known = rw known refl

  -- The ledger is not changed, and no row of it is read from the projection.
  rebuilt_rows :
      DistinctIds db.products
      → All
          (Projected repaired_db.movements repaired_db.balances)
          (where_rows (mine user) repaired_db.products)
  rebuilt_rows = rebuilt-Projected db.products

  -- For an account that is not nil, distinct product keys and at most one projection row for each
  -- product, whatever the rows hold: the rebuild succeeds and changes the projection alone, and a
  -- verification after it succeeds, writes nothing and reports consistency.
  pub rebuild_balances-verify :
      (user == 0) ≡ false
      → DistinctIds db.products
      → DistinctBalances db.balances
      → (bs : List ProductBalance) × (v : ProjectionVerification) × (rebuild_balances user db
          ≡ (ok tt, record db { balances = bs }))
        × (verify_product_balances user (record db { balances = bs })
            ≡ (ok v, record db { balances = bs }))
        × (v.consistent ≡ true)
  rebuild_balances-verify known distinct keys =
      let (v, verified, exactly) =
        verify_product_balances-Projected user repaired_db known
          (rebuilt-DistinctBalances db.products keys) in
      (
        rebuild_rows user db.products db,
        v,
        rebuild_lem known,
        verified,
        exactly.1 (rebuilt_rows distinct),
      )
