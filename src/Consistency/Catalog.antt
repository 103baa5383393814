-- ===== src/Consistency/Catalog.antt =====
-- Creating, editing and deleting a product keep the tables consistent.
use stok_sync.Common.{
  Option, none, some, Bool, true, false, List, [], ◌∷◌, ◌≡◌, refl, arith, ◌==◌, Bool-cases, inl,
  inr, ==_lem, subst, sym, ◌∙◌,
}
use stok_sync.Common.Int.{pos}
use stok_sync.Common.Lists.{All, find, exists_row, update_rows}
use stok_sync.Errors.{Uuid}
use stok_sync.Db.Types.{
  Database, Product, StockMovement, ProductBalance, CreateProductParams, UpdateProductParams,
  SoftDeleteProductParams,
}
use stok_sync.Db.Products.{created, edited, tombstone, update_matches, delete_matches}
use stok_sync.Db.Movements.{sum_delta, max_occurred_at, of_product}
use stok_sync.Db.Balances.{of_id, owned_product, upsert, set_balance, new_balance}
use stok_sync.Products.Effect.{zero, product_added, product_edited, product_deleted}
use stok_sync.Consistency.{DistinctIds, Projected, Referenced, IsConsistent}
use stok_sync.Consistency.Ledger.{owned-present}
use stok_sync.Consistency.Upsert.{changed, find-upsert_self, find-upsert_ne}

-- A change of some rows that keeps their keys.
module _ (p : Product → Bool) (change : Product → Product)
    (keeps_id : (q : Product) → (change q).id ≡ q.id)
    (keeps_user : (q : Product) → (change q).user_id ≡ q.user_id) where
  exists-update :
      (id : Uuid) (ps : List Product)
      → exists_row (λ q. q.id == id) (update_rows p change ps) ≡ exists_row (λ q. q.id == id) ps
  exists-update id [] = refl
  exists-update id (q ∷ ps) = ground (arith, keeps_id q, exists-update id ps)

  owned-update :
      (user id : Uuid) (ps : List Product)
      → exists_row (owned_product user id) (update_rows p change ps)
        ≡ exists_row (owned_product user id) ps
  owned-update user id [] = refl
  owned-update user id (q ∷ ps) = ground (arith, keeps_id q, keeps_user q, owned-update user id ps)

  distinct-update : (ps : List Product) → DistinctIds ps → DistinctIds (update_rows p change ps)
  distinct-update [] d = tt
  distinct-update (q ∷ ps) d = (
    ground (arith, keeps_id q, exists-update q.id ps, exists-update (change q).id ps),
    distinct-update ps d.1,
  )

  Referenced-update :
      (ps : List Product) (ms : List StockMovement)
      → All (Referenced ps) ms
      → All (Referenced (update_rows p change ps)) ms
  Referenced-update ps [] h = tt
  Referenced-update ps (m ∷ ms) h =
      (owned-update m.user_id m.product_id ps ∙ h.0, Referenced-update ps ms h.1)

  Projected-change :
      (ms : List StockMovement) (bs : List ProductBalance) (q : Product)
      → Projected ms bs q
      → Projected ms bs (change q)
  Projected-change ms bs q h = rw (keeps_id q, keeps_user q) h

  Projected-update :
      (ms : List StockMovement) (bs : List ProductBalance) (ps : List Product)
      → All (Projected ms bs) ps
      → All (Projected ms bs) (update_rows p change ps)
  Projected-update ms bs [] h = tt
  Projected-update ms bs (q ∷ ps) h = elim (Bool-cases (p q)) [
    | inl hit ↦ rw hit (Projected-change ms bs q h.0, Projected-update ms bs ps h.1)
    | inr miss ↦ rw miss (h.0, Projected-update ms bs ps h.1)
  ]

  update-IsConsistent :
      (db : Database)
      → IsConsistent db
      → IsConsistent (record db { products = update_rows p change db.products })
  update-IsConsistent db c = record {
    distinct = distinct-update db.products c.distinct;
    referenced = Referenced-update db.products db.movements c.referenced;
    projected = Projected-update db.movements db.balances db.products c.projected;
  }

pub edited-IsConsistent :
    (input : UpdateProductParams) (db : Database)
    → IsConsistent db
    → IsConsistent (product_edited input db)
edited-IsConsistent input db =
    update-IsConsistent (update_matches input) (edited input db) (λ _. refl) (λ _. refl) db

pub deleted-IsConsistent :
    (input : SoftDeleteProductParams) (db : Database)
    → IsConsistent db
    → IsConsistent (product_deleted input db)
deleted-IsConsistent input db =
    update-IsConsistent (delete_matches input) (tombstone input db) (λ _. refl) (λ _. refl) db

not_of_product :
    (user id : Uuid) (ps : List Product) (m : StockMovement)
    → exists_row (λ q. q.id == id) ps ≡ false
    → Referenced ps m
    → of_product user id m ≡ false
not_of_product user id ps m new h = elim (Bool-cases (m.product_id == id)) [
  | inl hit ↦
      let present = owned-present m.user_id m.product_id ps h in
      let same = ==_lem m.product_id id hit in
      cc (subst (λ k. exists_row (λ q. q.id == k) ps ≡ true) same present)
  | inr miss ↦ ground arith
]

-- A product that is not there has no ledger rows.
unreferenced :
    (user id : Uuid) (ps : List Product) (ms : List StockMovement)
    → exists_row (λ q. q.id == id) ps ≡ false
    → All (Referenced ps) ms
    → (sum_delta user id ms ≡ pos 0) × (max_occurred_at user id ms ≡ none)
unreferenced user id ps [] new h = (refl, refl)
unreferenced user id ps (m ∷ ms) new h =
    let (s, l) = unreferenced user id ps ms new h.1 in
    let other : of_product user id m ≡ false = not_of_product user id ps m new h.0 in
    (rw other s, rw other l)

-- A fresh balance is zero, whether or not a row was there.
module _ (input : CreateProductParams) (db : Database) where
  abbrev change : ProductBalance → ProductBalance
  change = set_balance (zero input) db

  abbrev fresh : ProductBalance
  fresh = new_balance (zero input) db

  starts_empty :
      (o : Option ProductBalance)
      → ((changed change fresh o).qty ≡ pos 0) × ((changed change fresh o).last_movement_at ≡ none)
  starts_empty none = (refl, refl)
  starts_empty (some b) = (refl, refl)

  Projected-others :
      (ps : List Product)
      → exists_row (λ q. q.id == input.id) ps ≡ false
      → All (Projected db.movements db.balances) ps
      → All (Projected db.movements (upsert change fresh db.balances)) ps
  Projected-others [] new h = tt
  Projected-others (q ∷ ps) new h =
      let (b, e, qty, last) = h.0 in
      let miss : (q.id == input.id) ≡ false = ground arith in
      (
        (b, find-upsert_ne change (λ _. refl) q.id fresh db.balances miss ∙ e, qty, last),
        Projected-others ps (ground arith) h.1,
      )

  Referenced-more :
      (ms : List StockMovement)
      → All (Referenced db.products) ms
      → All (Referenced (created input db ∷ db.products)) ms
  Referenced-more [] h = tt
  Referenced-more (m ∷ ms) h = (ground (arith, h.0), Referenced-more ms h.1)

  pub added-IsConsistent :
      exists_row (λ q. q.id == input.id) db.products ≡ false
      → IsConsistent db
      → IsConsistent (product_added input db)
  added-IsConsistent new c =
      let (q, l) = unreferenced input.user_id input.id db.products db.movements new c.referenced in
      let (zq, zl) = starts_empty (find (of_id input.id) db.balances) in
      record {
        distinct = (new, c.distinct);
        referenced = Referenced-more db.movements c.referenced;
        projected = (
          (
            changed change fresh (find (of_id input.id) db.balances),
            find-upsert_self change (λ _. refl) fresh db.balances,
            zq ∙ sym q,
            zl ∙ sym l,
          ),
          Projected-others db.products new c.projected,
        );
      }
