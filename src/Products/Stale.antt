-- ===== src/Products/Stale.antt =====
-- Optimistic concurrency (server/internal/products/service.go): of two edits of the same version, the
-- second is refused.
use stok_sync.Common.{
  none, some, true, false, List, [], ◌∷◌, ◌≡◌, refl, ap, ◌∙◌, sym, subst, arith, ◌==◌, ==_lem,
  ==_refl, ap₂, Bool-cases, inl, inr, is_some,
}
use stok_sync.Common.Int.{ℤ, pos, eq_ℤ, ◌+ℤ◌, +ℤ_parts}
use stok_sync.Common.Lists.{find-holds, find, exists_row, update_rows}
use stok_sync.Errors.{Uuid, ok, err, ProductError, product_error, no_rows}
use stok_sync.Db.Types.{Database, Product, UpdateProductParams}
use stok_sync.Db.Tx.{TxState}
use stok_sync.Db.Tx.Ends.{Ends}
use stok_sync.Db.Products.{edited, update_matches, update_product, get_product_by_id}
use stok_sync.Consistency.{DistinctIds}
use stok_sync.Movements.Effect.{Untouched}
use stok_sync.Products.{
  update_product_in_transaction_normalized, or_classify, classify_product_mutation_miss,
}
use stok_sync.Products.Effect.{Updated, update-Ends}

next_version : (v b : ℤ) → eq_ℤ v b ≡ true → eq_ℤ (v +ℤ pos 1) b ≡ false
next_version v b h = ground (arith, +ℤ_parts v (pos 1))

none-some : {A : Type 0} (a : A) → some a ≡ none → ⊥
none-some a h = cc

module _ (input : UpdateProductParams) (db : Database) where
  abbrev rows : List Product → List Product
  rows = update_rows (update_matches input) (edited input db)

  no_match :
      (ps : List Product)
      → exists_row (λ q. q.id == input.id) ps ≡ false
      → find (update_matches input) (rows ps) ≡ none
  no_match [] h = refl
  no_match (p ∷ ps) h = ground (arith, no_match ps)

  edited_lem :
      (p : Product)
      → update_matches input p ≡ true
      → update_matches input (edited input db p) ≡ false
  edited_lem p h = ground (arith, next_version p.version input.base_version)

  id_lem : (p : Product) → update_matches input p ≡ true → p.id ≡ input.id
  id_lem p h = ground arith

  new_ids :
      (p : Product) (ps : List Product)
      → update_matches input p ≡ true
      → exists_row (λ q. q.id == p.id) ps ≡ false
      → exists_row (λ q. q.id == input.id) ps ≡ false
  new_ids p ps here new = subst (λ i. exists_row (λ q. q.id == i) ps ≡ false) (id_lem p here) new

  no_found :
      (ps : List Product)
      → exists_row (λ q. q.id == input.id) ps ≡ false
      → find (update_matches input) ps ≡ none
  no_found [] h = refl
  no_found (p ∷ ps) h = ground (arith, no_found ps)

  none_left : (ps : List Product) → DistinctIds ps → find (update_matches input) (rows ps) ≡ none
  none_left [] d = refl
  none_left (p ∷ ps) d = elim (Bool-cases (update_matches input p)) [
    | inl here ↦ rw (here, edited_lem p here) (no_match ps (new_ids p ps here d.0))
    | inr past ↦ rw (past, past) (none_left ps d.1)
  ]

  row_lem :
      (ps : List Product) (old : Product)
      → DistinctIds ps
      → find (update_matches input) ps ≡ some old
      → find (λ q. q.id == input.id) (rows ps) ≡ some (edited input db old)
  row_lem [] old d h = cc
  row_lem (p ∷ ps) old d h = elim (Bool-cases (update_matches input p)) [
    | inl here ↦ first p ps old here h
    | inr past ↦ elim (Bool-cases (p.id == input.id)) [
      | inl same ↦ absurd (missed p ps old d past same h)
      | inr other ↦ rw (past, other) (row_lem ps old d.1 (rest p ps old past h))
    ]
  ]
    where
      first :
          (p : Product) (ps : List Product) (old : Product)
          → update_matches input p ≡ true
          → find (update_matches input) (p ∷ ps) ≡ some old
          → find (λ q. q.id == input.id) (rows (p ∷ ps)) ≡ some (edited input db old)
      first p ps old here h = ground (arith, id_lem p here)

      rest :
          (p : Product) (ps : List Product) (old : Product)
          → update_matches input p ≡ false
          → find (update_matches input) (p ∷ ps) ≡ some old
          → find (update_matches input) ps ≡ some old
      rest p ps old past h = ground arith

      missed :
          (p : Product) (ps : List Product) (old : Product)
          → DistinctIds (p ∷ ps)
          → update_matches input p ≡ false
          → (p.id == input.id) ≡ true
          → find (update_matches input) (p ∷ ps) ≡ some old
          → ⊥
      missed p ps old d past same h =
          let e =
            no_found ps (
              subst (λ i. exists_row (λ q. q.id == i) ps ≡ false) (==_lem p.id input.id same)
                d.0) in
          none-some old (sym (rest p ps old past h) ∙ e)

-- The edit of another version-checked input that names the same row and version.
abbrev pub Rival : UpdateProductParams → UpdateProductParams → Type 0
Rival a b = (a.id ≡ b.id) × (a.user_id ≡ b.user_id) × (a.base_version ≡ b.base_version)

Rival-matches : (a b : UpdateProductParams) → Rival a b → update_matches a ≡ update_matches b
Rival-matches a b h = rw (h.0, h.1, h.2) refl

unmatched_lem :
    (input : UpdateProductParams) (t : TxState)
    → t.aborted ≡ false
    → find (update_matches input) t.db.products ≡ none
    → update_product input t ≡ (err no_rows, t)
unfolding update_product
unmatched_lem input t live missing = ground arith

get_lem :
    (id : Uuid) (t : TxState) (current : Product)
    → t.aborted ≡ false
    → find (λ q. q.id == id) t.db.products ≡ some current
    → get_product_by_id id t ≡ (ok current, t)
unfolding get_product_by_id
get_lem id t current live there = ground arith

stale_lem :
    (input : UpdateProductParams) (t : TxState) (current : Product)
    → t.aborted ≡ false
    → find (update_matches input) t.db.products ≡ none
    → find (λ q. q.id == input.id) t.db.products ≡ some current
    → current.user_id ≡ input.user_id
    → is_some current.deleted_at ≡ false
    → update_product_in_transaction_normalized input t
      ≡ (err (product_error ProductError.version_conflict), t)
unfolding update_product_in_transaction_normalized or_classify classify_product_mutation_miss
stale_lem input t current live missing there owned active =
    rw
      (
        unmatched_lem input t live missing,
        get_lem input.id t current live there,
        owned,
        ==_refl input.user_id,
        active,
      )
      refl

owned_lem :
    (input : UpdateProductParams) (p : Product)
    → update_matches input p ≡ true
    → (p.user_id ≡ input.user_id) × (is_some p.deleted_at ≡ false)
owned_lem input p h = ground arith

-- If product keys are distinct, and an update has succeeded, then another update of the same product
-- and account from the same base version, tried on the state that the first one left, is refused
-- with `version_conflict` and changes nothing.
pub stale_update :
    (input input' : UpdateProductParams) (s t : TxState) (p : Product)
    → DistinctIds s.db.products
    → Rival input' input
    → update_product_in_transaction_normalized input s ≡ (ok p, t)
    → update_product_in_transaction_normalized input' t
      ≡ (err (product_error ProductError.version_conflict), t)
stale_update input input' s t p distinct rival e =
    go (subst (Ends (Untouched s) (Updated input s)) e (update-Ends input s))
  where
    go :
        Updated input s p t
        → update_product_in_transaction_normalized input' t
          ≡ (err (product_error ProductError.version_conflict), t)
    go (old, found, made, grown, live) =
        let ps = s.db.products in
        let held = owned_lem input old (find-holds (update_matches input) ps old found) in
        stale_lem input' t (edited input s.db old) (ap (λ u. u.aborted) grown ∙ live)
          (ap₂ (λ m u. find m u.db.products) (Rival-matches input' input rival) grown
            ∙ none_left input s.db ps distinct)
          (ap₂ (λ i u. find (λ q. q.id == i) u.db.products) rival.0 grown
            ∙ row_lem input s.db ps old distinct found)
          (held.0 ∙ sym rival.1) held.1
