-- ===== src/Consistency/Upsert.antt =====
-- Reading a balance after an upsert.
use stok_sync.Common.{
  Option, none, some, true, false, List, [], ◌∷◌, ◌≡◌, refl, arith, ◌==◌, Bool-cases, inl, inr,
}
use stok_sync.Common.Lists.{find, exists_row, update_rows, exists_row-find}
use stok_sync.Errors.{Uuid}
use stok_sync.Db.Types.{ProductBalance}
use stok_sync.Db.Balances.{of_id, upsert}

abbrev pub changed :
    (ProductBalance → ProductBalance) → ProductBalance → Option ProductBalance → ProductBalance
changed change fresh none = fresh
changed change fresh (some b) = change b

module _ (change : ProductBalance → ProductBalance)
    (keeps : (b : ProductBalance) → (change b).product_id ≡ b.product_id) where
  find-update_self :
      (k : Uuid) (bs : List ProductBalance)
      → exists_row (of_id k) bs ≡ true
      → (b : ProductBalance) × (find (of_id k) bs ≡ some b)
        × (find (of_id k) (update_rows (of_id k) change bs) ≡ some (change b))
  find-update_self k [] h = cc
  find-update_self k (b ∷ bs) h = elim (Bool-cases (b.product_id == k)) [
    | inl hit ↦ (b, rw hit refl, rw (hit, keeps b, hit) refl)
    | inr miss ↦
        let (c, e, f) = find-update_self k bs (ground arith) in (c, rw miss e, rw (miss, miss) f)
  ]

  find-update_ne :
      (k j : Uuid) (bs : List ProductBalance)
      → (j == k) ≡ false
      → find (of_id j) (update_rows (of_id k) change bs) ≡ find (of_id j) bs
  find-update_ne k j [] h = refl
  find-update_ne k j (b ∷ bs) h = ground (arith, keeps b, find-update_ne k j bs h)

  -- The row that was upserted is the changed one, or the fresh one where there was none.
  pub find-upsert_self :
      (fresh : ProductBalance) (bs : List ProductBalance)
      → find (of_id fresh.product_id) (upsert change fresh bs)
        ≡ some (changed change fresh (find (of_id fresh.product_id) bs))
  find-upsert_self fresh bs = elim (Bool-cases (exists_row (of_id fresh.product_id) bs)) [
    | inl old ↦ let (b, e, f) = find-update_self fresh.product_id bs old in rw (old, e) f
    | inr new ↦ rw (new, exists_row-find _ bs new) (ground arith)
  ]

  -- No other row changes.
  pub find-upsert_ne :
      (j : Uuid) (fresh : ProductBalance) (bs : List ProductBalance)
      → (j == fresh.product_id) ≡ false
      → find (of_id j) (upsert change fresh bs) ≡ find (of_id j) bs
  find-upsert_ne j fresh bs h = ground (arith, find-update_ne fresh.product_id j bs h)
