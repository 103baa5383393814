-- ===== src/Consistency/Ledger.antt =====
-- An accepted movement keeps the tables consistent.
use stok_sync.Common.{
  some, true, false, List, [], ◌∷◌, ◌≡◌, refl, arith, ◌==◌, Bool-cases, inl, inr, ==_lem, subst,
  sym, ap, ◌∙◌,
}
use stok_sync.Common.Int.{◌+ℤ◌}
use stok_sync.Common.Lists.{All, find, exists_row}
use stok_sync.Errors.{Uuid}
use stok_sync.Db.Types.{Database, Product, ProductBalance, CreateStockMovementParams}
use stok_sync.Db.Movements.{inserted, of_product, later}
use stok_sync.Db.Balances.{of_id, owned_product, upsert, added, first_balance}
use stok_sync.Movements.Effect.{appended, active_product, increment, owned_of_active}
use stok_sync.Consistency.{DistinctIds, Projected, IsConsistent}
use stok_sync.Consistency.Upsert.{changed, find-upsert_self, find-upsert_ne}

abbrev pub OwnedBy : Uuid → Uuid → Product → Type 0
OwnedBy user id p = p.id ≡ id → p.user_id ≡ user

absent-OwnedBy :
    (user id : Uuid) (ps : List Product)
    → exists_row (λ q. q.id == id) ps ≡ false
    → All (OwnedBy user id) ps
absent-OwnedBy user id [] h = tt
absent-OwnedBy user id (p ∷ ps) h = (ground arith, absent-OwnedBy user id ps (ground arith))

pub owned-present :
    (user id : Uuid) (ps : List Product)
    → exists_row (owned_product user id) ps ≡ true
    → exists_row (λ q. q.id == id) ps ≡ true
owned-present user id [] h = cc
owned-present user id (p ∷ ps) h = ground (arith, owned-present user id ps)

-- With distinct identifiers, a product identifier has one owner.
pub distinct-OwnedBy :
    (user id : Uuid) (ps : List Product)
    → DistinctIds ps
    → exists_row (owned_product user id) ps ≡ true
    → All (OwnedBy user id) ps
distinct-OwnedBy user id [] d h = tt
distinct-OwnedBy user id (p ∷ ps) d h = elim (Bool-cases (owned_product user id p)) [
  | inl hit ↦ (ground arith, absent-OwnedBy user id ps (ground arith))
  | inr miss ↦
      let rest : exists_row (owned_product user id) ps ≡ true = ground arith in
      (ground (arith, owned-present user id ps rest), distinct-OwnedBy user id ps d.1 rest)
]

Projected-append :
    (input : CreateStockMovementParams) (db : Database) (p : Product)
    → OwnedBy input.user_id input.product_id p
    → Projected db.movements db.balances p
    → Projected (appended input db).movements (appended input db).balances p
Projected-append input db p owner (b, e, q, l) = elim (Bool-cases (p.id == input.product_id)) [
  | inl hit ↦
      let same : p.id ≡ input.product_id = ==_lem p.id input.product_id hit in
      let user : p.user_id ≡ input.user_id = owner same in
      let matched : of_product p.user_id p.id (inserted input db) ≡ true = ground arith in
      (
        change b,
        subst (λ k. find (of_id k) (upsert change fresh db.balances) ≡ some (change b)) (sym same)
            (find-upsert_self change (λ _. refl) fresh db.balances
              ∙ ap (λ o. some (changed change fresh o))
                  (subst (λ k. find (of_id k) db.balances ≡ some b) same e)),
        rw matched (ap (λ z. z +ℤ input.delta) q),
        rw matched (ap (λ z. later z input.occurred_at) l),
      )
  | inr miss ↦
      let other : of_product p.user_id p.id (inserted input db) ≡ false = ground arith in
      (b, find-upsert_ne change (λ _. refl) p.id fresh db.balances miss ∙ e, rw other q, rw other l)
]
  where
    change : ProductBalance → ProductBalance
    change = added (increment input) db

    fresh : ProductBalance
    fresh = first_balance (increment input) db

All-Projected :
    (input : CreateStockMovementParams) (db : Database) (ps : List Product)
    → All (OwnedBy input.user_id input.product_id) ps
    → All (Projected db.movements db.balances) ps
    → All (Projected (appended input db).movements (appended input db).balances) ps
All-Projected input db [] o h = tt
All-Projected input db (p ∷ ps) o h =
    (Projected-append input db p o.0 h.0, All-Projected input db ps o.1 h.1)

-- Appending a movement of an active product keeps the keys, the references and the projection.
pub appended-IsConsistent :
    (input : CreateStockMovementParams) (db : Database)
    → active_product input db ≡ true
    → IsConsistent db
    → IsConsistent (appended input db)
appended-IsConsistent input db active c = record {
  distinct = c.distinct;
  referenced = (owned_of_active input db.products active, c.referenced);
  projected =
      All-Projected input db db.products
        (distinct-OwnedBy input.user_id input.product_id db.products c.distinct
          (owned_of_active input db.products active))
        c.projected;
}
