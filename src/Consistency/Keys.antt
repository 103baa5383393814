-- ===== src/Consistency/Keys.antt =====
-- At most one projection row for each product, through every upsert and every domain mutation.
use stok_sync.Common.{Bool, List, [], ◌∷◌, ◌≡◌, arith, Bool-cases, inl, inr, refl}
use stok_sync.Common.Lists.{exists_row, update_rows}
use stok_sync.Errors.{Uuid}
use stok_sync.Db.Types.{Database, ProductBalance}
use stok_sync.Db.Balances.{of_id, upsert}
use stok_sync.Consistency.{DistinctBalances}
use stok_sync.Consistency.Step.{DomainStep, moved, added, edited, deleted}

module _ (change : ProductBalance → ProductBalance)
    (keeps : (b : ProductBalance) → (change b).product_id ≡ b.product_id) where
  exists-update :
      (p : ProductBalance → Bool) (k : Uuid) (bs : List ProductBalance)
      → exists_row (of_id k) (update_rows p change bs) ≡ exists_row (of_id k) bs
  exists-update p k [] = refl
  exists-update p k (b ∷ bs) = ground (arith, keeps b, exists-update p k bs)

  update-DistinctBalances :
      (p : ProductBalance → Bool) (bs : List ProductBalance)
      → DistinctBalances bs
      → DistinctBalances (update_rows p change bs)
  update-DistinctBalances p [] d = tt
  update-DistinctBalances p (b ∷ bs) d = (
    ground
        (arith, keeps b, exists-update p b.product_id bs, exists-update p (change b).product_id bs),
    update-DistinctBalances p bs d.1,
  )

  pub upsert-DistinctBalances :
      (fresh : ProductBalance) (bs : List ProductBalance)
      → DistinctBalances bs
      → DistinctBalances (upsert change fresh bs)
  upsert-DistinctBalances fresh bs d = elim (Bool-cases (exists_row (of_id fresh.product_id) bs)) [
    | inl old ↦ rw old (update-DistinctBalances (of_id fresh.product_id) bs d)
    | inr new ↦ rw new (new, d)
  ]

pub step-DistinctBalances :
    {db db' : Database}
    → DomainStep db db'
    → DistinctBalances db.balances
    → DistinctBalances db'.balances
step-DistinctBalances (moved db input active) d =
    upsert-DistinctBalances _ (λ _. refl) _ db.balances d
step-DistinctBalances (added db input new) d = upsert-DistinctBalances _ (λ _. refl) _ db.balances d
step-DistinctBalances (edited db input old found) d = d
step-DistinctBalances (deleted db input old found) d = d
