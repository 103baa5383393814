-- ===== src/Snapshot/Complete.antt =====
-- A snapshot is the whole replica of the account, or it is refused (server/internal/snapshot/service.go).
use stok_sync.Common.{
  Bool, true, false, ◌||◌, List, [], ◌∷◌, if◌then◌else◌, ◌==◌, ltb, ℕ, suc, zero, ◌≤◌, ◌≡◌, refl,
  subst, ap, arith, Bool-cases, inl, inr,
}
use stok_sync.Common.Int.{ℤ, pos, negsuc, pos_part, ◌+ℤ◌, leb_ℤ, eq_ℤ, max_int32_value}
use stok_sync.Common.Lists.{length, take, length-take}
use stok_sync.Errors.{Uuid, SnapshotError, snapshot_error, Result, ok, err}
use stok_sync.Db.Types.{Database}
use stok_sync.Db.Tx.{
  commit, TxState, begin, select_rows, select_one, statement, with_snapshot_result, ◌>>=◌,
}
use stok_sync.Db.ChangeLog.{current_change_sequence}
use stok_sync.Db.Movements.{list_ledger_balances_sql}
use stok_sync.Db.Snapshot.{
  all_products, all_movements, bounded, cut, list_snapshot_products, list_snapshot_movements,
  list_snapshot_balances, list_snapshot_products_sql, list_snapshot_movements_sql,
  list_snapshot_balances_sql, current_database_time,
}
use stok_sync.Snapshot.{Limits, Snapshot, out_of_rows, untruncated, read_snapshot, get_snapshot}

take-all : {A : Type 0} (n : ℕ) (xs : List A) → length xs ≤ n → take n xs ≡ xs
take-all zero [] h = refl
take-all zero (x ∷ xs) h = absurd (omega (arith, h))
take-all (suc n) [] h = refl
take-all (suc n) (x ∷ xs) h = ap (◌∷◌ x) (take-all n xs (omega (arith, h)))

-- Whether the rows exceed the bound.
abbrev pub exceeds : {A : Type 0} → ℤ → List A → Bool
exceeds most rows = ltb (pos_part most) (length rows)

abbrev pub too_large : {A : Type 0} → Result A
too_large = err (snapshot_error SnapshotError.snapshot_too_large)

one_more : (n : ℕ) → pos n +ℤ pos 1 ≡ pos (suc n)
unfolding ◌+ℤ◌
one_more n = ground arith

positive : (n : ℕ) → out_of_rows (pos n) ≡ false → leb_ℤ (pos n) (pos 0) ≡ false
positive n h = ground arith

below_max : (n : ℕ) → out_of_rows (pos n) ≡ false → eq_ℤ (pos n) max_int32_value ≡ false
below_max n h = ground arith

within : {A : Type 0} (n : ℕ) (xs : List A) → exceeds (pos n) xs ≡ false → length xs ≤ suc n
within n xs few = ground arith

still_more :
    {A : Type 0} (n : ℕ) (xs : List A)
    → exceeds (pos n) xs ≡ true
    → ltb n (length (take (suc n) xs)) ≡ true
still_more n xs more = rw (length-take (suc n) xs) (ground arith)

cut-untruncated :
    {A : Type 0} (n : ℕ) (xs : List A) (s : TxState)
    → untruncated (cut (pos n) (take (suc n) xs)) s
      ≡ ((if exceeds (pos n) xs then too_large else ok xs), s)
cut-untruncated n xs s = elim (Bool-cases (exceeds (pos n) xs)) [
  | inl more ↦ rw (more, still_more n xs more) refl
  | inr few ↦ rw (take-all (suc n) xs (within n xs few), few) refl
]

bounded-untruncated :
    {A : Type 0} (n : ℕ) (q : ℤ → Database → List A) (xs : List A) (db : Database)
    → out_of_rows (pos n) ≡ false
    → q (pos n +ℤ pos 1) db ≡ take (pos_part (pos n +ℤ pos 1)) xs
    → (bounded (pos n) q >>= untruncated) (begin db)
      ≡ ((if exceeds (pos n) xs then too_large else ok xs), begin db)
unfolding select_rows
bounded-untruncated n q xs db inside cuts =
    rw (positive n inside, below_max n inside, cuts, one_more n) (cut-untruncated n xs (begin db))

module _ (user : Uuid) (db : Database) where
  products_read :
      (n : ℕ)
      → out_of_rows (pos n) ≡ false
      → (list_snapshot_products user (pos n) >>= untruncated) (begin db) ≡ (
        (if exceeds (pos n) (all_products user db) then too_large else ok (all_products user db)),
        begin db,
      )
  unfolding list_snapshot_products list_snapshot_products_sql
  products_read n inside =
      bounded-untruncated n (list_snapshot_products_sql user) (all_products user db) db inside refl

  movements_read :
      (n : ℕ)
      → out_of_rows (pos n) ≡ false
      → (list_snapshot_movements user (pos n) >>= untruncated) (begin db) ≡ (
        (if exceeds (pos n) (all_movements user db) then too_large else ok (all_movements user db)),
        begin db,
      )
  unfolding list_snapshot_movements list_snapshot_movements_sql
  movements_read n inside =
      bounded-untruncated n (list_snapshot_movements_sql user) (all_movements user db) db inside
        refl

  balances_read :
      (n : ℕ)
      → out_of_rows (pos n) ≡ false
      → (list_snapshot_balances user (pos n) >>= untruncated) (begin db) ≡ (
        (if exceeds (pos n) (list_ledger_balances_sql user db)
            then too_large
            else ok (list_ledger_balances_sql user db)),
        begin db,
      )
  unfolding list_snapshot_balances list_snapshot_balances_sql
  balances_read n inside =
      bounded-untruncated n (list_snapshot_balances_sql user) (list_ledger_balances_sql user db) db
        inside refl

  -- The whole replica: every row of the account, the ledger's balances, the counter and the clock.
  abbrev pub replica : Snapshot
  replica = record {
    products = all_products user db;
    movements = all_movements user db;
    balances = list_ledger_balances_sql user db;
    cursor = db.last_seq;
    server_time = db.clock;
  }

  abbrev pub is_too_large : Limits → Bool
  is_too_large limits =
      exceeds limits.max_products (all_products user db)
      || exceeds limits.max_movements (all_movements user db)
      || exceeds limits.max_products (list_ledger_balances_sql user db)

  read_lem :
      (limits : Limits) (n m : ℕ)
      → limits.max_products ≡ pos n
      → limits.max_movements ≡ pos m
      → out_of_rows (pos n) ≡ false
      → out_of_rows (pos m) ≡ false
      → read_snapshot limits user (begin db)
        ≡ ((if is_too_large limits then too_large else ok replica), begin db)
  unfolding read_snapshot current_change_sequence current_database_time select_one statement
  read_lem limits n m products movements few_products few_movements =
      rw (products, movements, products_read n few_products)
        (elim (Bool-cases (exceeds (pos n) (all_products user db))) [
          | inl many ↦ rw many refl
          | inr few ↦
              rw (few, movements_read m few_movements)
                (elim (Bool-cases (exceeds (pos m) (all_movements user db))) [
                  | inl many' ↦ rw many' refl
                  | inr few' ↦
                      rw (few', balances_read n few_products)
                        (elim (Bool-cases (exceeds (pos n) (list_ledger_balances_sql user db))) [
                          | inl many'' ↦ rw many'' refl
                          | inr few'' ↦ rw few'' refl
                        ])
                ])
        ])

  committed :
      (b : Bool) (s : Snapshot)
      → commit db ((if b then too_large else ok s), begin db)
        ≡ ((if b then too_large else ok s), db)
  committed true s = refl
  committed false s = refl

  natural : (z : ℤ) → out_of_rows z ≡ false → (n : ℕ) × (z ≡ pos n)
  natural (pos n) h = (n, refl)
  natural (negsuc n) h = absurd (ground arith)

  -- For an account that is not nil and row bounds from one to below 2^31 - 1: a snapshot writes nothing and
  -- never is a part of the replica. It is refused as too large if the products, the movements or
  -- the balances exceed their bound, and otherwise is all of them, with the counter and the clock.
  pub get_snapshot-replica :
      (limits : Limits)
      → (user == 0) ≡ false
      → out_of_rows limits.max_products ≡ false
      → out_of_rows limits.max_movements ≡ false
      → get_snapshot limits user db ≡ ((if is_too_large limits then too_large else ok replica), db)
  unfolding get_snapshot with_snapshot_result
  get_snapshot-replica limits known few_products few_movements =
      let (n, products) = natural limits.max_products few_products in
      let (m, movements) = natural limits.max_movements few_movements in
      rw
        (
          known,
          read_lem limits n m products movements
              (subst (λ z. out_of_rows z ≡ false) products few_products)
              (subst (λ z. out_of_rows z ≡ false) movements few_movements),
        )
        (committed (is_too_large limits) replica)
