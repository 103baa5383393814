-- ===== src/Products/Verdict.antt =====
-- When a deletion is accepted, and why it is refused otherwise (server/internal/products/service.go).
use stok_sync.Common.{
  Option, none, some, true, false, not, is_some, ◌≡◌, refl, arith, ◌==◌, if◌then◌else◌, Bool-cases,
  Option-cases, inl, inr, ==_lem, subst,
}
use stok_sync.Common.Int.{ltb_ℤ}
use stok_sync.Common.Lists.{find, find-holds}
use stok_sync.Errors.{ok, err, ProductError, product_error, no_rows}
use stok_sync.Db.Types.{Product, SoftDeleteProductParams}
use stok_sync.Db.Tx.{TxState}
use stok_sync.Db.Tx.Ends.{Ends}
use stok_sync.Db.Products.{
  delete_matches, tombstone, owns_device, soft_delete_product, get_product_by_id,
  get_product_by_id_sql,
}
use stok_sync.Consistency.{DistinctIds}
use stok_sync.Movements.Effect.{Untouched}
use stok_sync.Products.{
  or_classify, classify_product_mutation_miss, soft_delete_product_in_transaction_normalized,
}
use stok_sync.Products.Changes.{Removes, delete-Removes}
use stok_sync.Products.Effect.{product_deleted}
use stok_sync.Products.Keyed.{keyed-missing, keyed-hit, keyed-miss}

-- The refusal that the product under the key calls for, if any.
abbrev pub refusal : SoftDeleteProductParams → Option Product → Option ProductError
refusal input none = some ProductError.product_not_found
refusal input (some p) =
    if not (p.user_id == input.user_id)
    then some ProductError.ownership_violation
    else if is_some p.deleted_at
    then some ProductError.product_deleted
    else if ltb_ℤ p.version input.base_version
    then some ProductError.version_conflict
    else none

abbrev pub Decides : SoftDeleteProductParams → TxState → Option ProductError → Type 0
Decides input s (some e) =
    soft_delete_product_in_transaction_normalized input s ≡ (err (product_error e), s)
Decides input s none =
    (p : Product) × (t : TxState) × (soft_delete_product_in_transaction_normalized input s
      ≡ (ok p, t))
    × Removes input s p t

delete_id :
    (input : SoftDeleteProductParams) (p : Product)
    → delete_matches input p ≡ true
    → p.id ≡ input.id
delete_id input p h = ground arith

module _ (input : SoftDeleteProductParams) (s : TxState) where
  row_lem :
      (p : Product)
      → s.aborted ≡ false
      → owns_device input.user_id input.updated_by_device_id s.db.devices ≡ true
      → find (delete_matches input) s.db.products ≡ some p
      → soft_delete_product input s
        ≡ (ok (tombstone input s.db p), record s { db = product_deleted input s.db })
  unfolding soft_delete_product
  row_lem p live owned found = ground arith

  removed :
      (p : Product)
      → s.aborted ≡ false
      → owns_device input.user_id input.updated_by_device_id s.db.devices ≡ true
      → find (delete_matches input) s.db.products ≡ some p
      → soft_delete_product_in_transaction_normalized input s
        ≡ (ok (tombstone input s.db p), record s { db = product_deleted input s.db })
  unfolding soft_delete_product_in_transaction_normalized or_classify
  removed p live owned found = rw (row_lem p live owned found) refl

  missed_lem :
      s.aborted ≡ false
      → find (delete_matches input) s.db.products ≡ none
      → soft_delete_product input s ≡ (err no_rows, s)
  unfolding soft_delete_product
  missed_lem live missing = ground arith

  get_lem :
      (p : Product)
      → s.aborted ≡ false
      → find (λ q. q.id == input.id) s.db.products ≡ some p
      → get_product_by_id input.id s ≡ (ok p, s)
  unfolding get_product_by_id
  get_lem p live there = ground arith

  get_none_lem :
      s.aborted ≡ false
      → find (λ q. q.id == input.id) s.db.products ≡ none
      → get_product_by_id input.id s ≡ (err no_rows, s)
  unfolding get_product_by_id
  get_none_lem live there = ground arith

  absent :
      s.aborted ≡ false
      → find (λ q. q.id == input.id) s.db.products ≡ none
      → find (delete_matches input) s.db.products ≡ none
      → Decides input s (refusal input none)
  unfolding soft_delete_product_in_transaction_normalized or_classify classify_product_mutation_miss
  absent live unknown missing = rw (missed_lem live missing, get_none_lem live unknown) refl

  refused :
      (p : Product)
      → s.aborted ≡ false
      → find (λ q. q.id == input.id) s.db.products ≡ some p
      → p.id ≡ input.id
      → delete_matches input p ≡ false
      → find (delete_matches input) s.db.products ≡ none
      → Decides input s (refusal input (some p))
  unfolding soft_delete_product_in_transaction_normalized or_classify classify_product_mutation_miss
  refused p live there same fails missing = elim (Bool-cases (p.user_id == input.user_id)) [
    | inr other ↦ rw other (rw (missed_lem live missing, get_lem p live there, other) refl)
    | inl mine ↦ elim (Bool-cases (is_some p.deleted_at)) [
      | inl gone ↦
          rw (mine, gone) (rw (missed_lem live missing, get_lem p live there, mine, gone) refl)
      | inr there_still ↦
          let newer : ltb_ℤ p.version input.base_version ≡ true = ground arith in
          rw (mine, there_still, newer)
            (rw (missed_lem live missing, get_lem p live there, mine, there_still) refl)
    ]
  ]

  accepted_lem : (p : Product) → delete_matches input p ≡ true → refusal input (some p) ≡ none
  accepted_lem p holds = ground arith

  deletes :
      (p : Product) (t : TxState)
      → DistinctIds s.db.products
      → soft_delete_product_in_transaction_normalized input s ≡ (ok p, t)
      → Decides input s none
  deletes p t distinct e =
      (p, t, e, subst (Ends (Untouched s) (Removes input s)) e (delete-Removes input s distinct))

-- In a transaction that is not aborted, where product keys are distinct and the device is the
-- account's: the lookup of the key decides. A deletion is refused with product_not_found where no
-- product has the key, ownership_violation where it is another account's, product_deleted where it
-- is deleted already and version_conflict where its version is less than the base version, and
-- nothing changes; in every other case it succeeds, and has removed the product.
pub delete-Decides :
    (input : SoftDeleteProductParams) (s : TxState)
    → s.aborted ≡ false
    → owns_device input.user_id input.updated_by_device_id s.db.devices ≡ true
    → DistinctIds s.db.products
    → Decides input s (refusal input (get_product_by_id_sql input.id s.db))
unfolding get_product_by_id_sql
delete-Decides input s live owned distinct =
    let ps = s.db.products in
    elim (Option-cases (find (λ q. q.id == input.id) ps)) [
      | inl unknown ↦ rw unknown (
          absent input s live unknown
            (keyed-missing input.id (delete_matches input) (delete_id input) ps distinct unknown))
      | inr (p, there) ↦ rw there (elim (Bool-cases (delete_matches input p)) [
        | inl holds ↦ rw (accepted_lem input s p holds) (
            deletes input s _ _ distinct (
              removed input s p live owned (
                keyed-hit input.id (delete_matches input) (delete_id input) ps p distinct there
                  holds)))
        | inr fails ↦
            refused input s p live there
              (==_lem p.id input.id (find-holds (λ q. q.id == input.id) ps p there)) fails
              (keyed-miss input.id (delete_matches input) (delete_id input) ps p distinct there
                fails)
      ])
    ]
