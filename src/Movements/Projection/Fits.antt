-- ===== src/Movements/Projection/Fits.antt =====
-- One comparison of `compareBalances`, and the lookups that it makes
-- (server/internal/movements/service.go).
use stok_sync.Common.{
  Option, none, some, Bool, true, false, List, [], ◌∷◌, ◌≡◌, refl, sym, ap, ◌∙◌, arith, subst, ◌==◌,
  ==_lem, ==_refl, Bool-cases, inl, inr,
}
use stok_sync.Common.Int.{eq_ℤ, eq_ℤ_lem, eq_ℤ_refl}
use stok_sync.Common.Lists.{length, exists_row, find, last_row, where_rows, All, length-append}
use stok_sync.Common.Rows.{AtMostOne, last_row-rows}
use stok_sync.Errors.{Uuid, Time}
use stok_sync.Db.Types.{Database, Product, LedgerBalance, ProductBalance}
use stok_sync.Db.Movements.{get_product_ledger_balance_sql, ledger_balances_of}
use stok_sync.Db.Balances.{of_id, owned_product, list_product_balances_sql}
use stok_sync.Consistency.{DistinctBalances, Projected}
use stok_sync.Movements.Projection.{
  same_time, differences, expected_mismatches, unexpected_mismatches, has_ledger,
}

absent_one :
    (id : Uuid) (bs : List ProductBalance)
    → exists_row (of_id id) bs ≡ false
    → AtMostOne (of_id id) bs
absent_one id [] h = tt
absent_one id (b ∷ bs) h = elim (Bool-cases (b.product_id == id)) [
  | inl hit ↦ rw hit (ground arith)
  | inr miss ↦ rw miss (absent_one id bs (rw miss at h))
]

DistinctBalances-AtMostOne :
    (id : Uuid) (bs : List ProductBalance) → DistinctBalances bs → AtMostOne (of_id id) bs
DistinctBalances-AtMostOne id [] d = tt
DistinctBalances-AtMostOne id (b ∷ bs) d = elim (Bool-cases (b.product_id == id)) [
  | inl hit ↦ rw hit (subst (λ i. exists_row (of_id i) bs ≡ false) (==_lem b.product_id id hit) d.0)
  | inr miss ↦ rw miss (DistinctBalances-AtMostOne id bs d.1)
]

same_time_lem : (s t : Option Time) → same_time s t ≡ true → s ≡ t
unfolding same_time
same_time_lem none none h = refl
same_time_lem none (some t) h = cc
same_time_lem (some s) none h = cc
same_time_lem (some s) (some t) h = ap some (eq_ℤ_lem s t h)

same_time_refl : (t : Option Time) → same_time t t ≡ true
unfolding same_time
same_time_refl none = refl
same_time_refl (some t) = eq_ℤ_refl t

-- No difference is reported for a row that is there with the ledger's quantity and instant.
differences-none :
    (e : LedgerBalance) (o : Option ProductBalance)
    → length (differences e o) ≡ 0
    → (b : ProductBalance) × (o ≡ some b)
      × (b.qty ≡ e.qty)
      × (b.last_movement_at ≡ e.last_movement_at)
differences-none e none h = absurd (omega arith)
differences-none e (some b) h = elim (Bool-cases (eq_ℤ b.qty e.qty)) [
  | inr other ↦ absurd (omega (arith, rw other at h))
  | inl same ↦ elim (Bool-cases (same_time e.last_movement_at b.last_movement_at)) [
    | inr apart ↦ absurd (omega (arith, rw (same, apart) at h))
    | inl still ↦ (
      b,
      refl,
      eq_ℤ_lem b.qty e.qty same,
      sym (same_time_lem e.last_movement_at b.last_movement_at still),
    )
  ]
]

none-differences :
    (e : LedgerBalance) (b : ProductBalance)
    → b.qty ≡ e.qty
    → b.last_movement_at ≡ e.last_movement_at
    → length (differences e (some b)) ≡ 0
none-differences e b q l =
    let same : eq_ℤ b.qty e.qty ≡ true = subst (λ z. eq_ℤ b.qty z ≡ true) q (eq_ℤ_refl b.qty) in
    let still : same_time e.last_movement_at b.last_movement_at ≡ true =
      subst (λ z. same_time z b.last_movement_at ≡ true) l (same_time_refl b.last_movement_at) in
    rw (same, still) refl

-- The projection's lookup of one product of the account.
module _ (user : Uuid) (db : Database) (distinct : DistinctBalances db.balances) where
  lookup_lem :
      (id : Uuid)
      → exists_row (owned_product user id) db.products ≡ true
      → last_row (of_id id) (list_product_balances_sql user db) ≡ find (of_id id) db.balances
  unfolding list_product_balances_sql
  lookup_lem id owned =
      last_row-rows (of_id id) _ _ db.balances (DistinctBalances-AtMostOne id db.balances distinct)
        λ b h.
          subst (λ i. exists_row (owned_product user i) db.products ≡ true)
            (sym (==_lem b.product_id id h)) owned

-- The check of one ledger balance against the listed projection.
abbrev pub Fits : List ProductBalance → LedgerBalance → Type 0
Fits projected e = length (differences e (last_row (of_id e.product_id) projected)) ≡ 0

pub expected-Fits :
    (projected : List ProductBalance) (es : List LedgerBalance)
    → length (expected_mismatches projected es) ≡ 0
    → All (Fits projected) es
expected-Fits projected [] h = tt
expected-Fits projected (e ∷ es) h =
    let both =
      length-append (differences e (last_row (of_id e.product_id) projected))
        (expected_mismatches projected es) in
    (omega (arith, both), expected-Fits projected es (omega (arith, both)))

pub Fits-expected :
    (projected : List ProductBalance) (es : List LedgerBalance)
    → All (Fits projected) es
    → length (expected_mismatches projected es) ≡ 0
Fits-expected projected [] h = refl
Fits-expected projected (e ∷ es) h =
    length-append (differences e (last_row (of_id e.product_id) projected))
      (expected_mismatches projected es)
    ∙ omega (arith, h.0, Fits-expected projected es h.1)

pub has_ledger-owned :
    (user id : Uuid) (ps : List Product) (db : Database)
    → exists_row (has_ledger id) (ledger_balances_of user ps db)
      ≡ exists_row (owned_product user id) ps
unfolding get_product_ledger_balance_sql
has_ledger-owned user id [] db = refl
has_ledger-owned user id (p ∷ ps) db = ground (arith, has_ledger-owned user id ps db)

pub unexpected_none :
    (canonical : List LedgerBalance) (rows : List ProductBalance)
    → All (λ a. exists_row (has_ledger a.product_id) canonical ≡ true) rows
    → unexpected_mismatches canonical rows ≡ []
unexpected_none canonical [] h = refl
unexpected_none canonical (a ∷ rows) h = rw h.0 (unexpected_none canonical rows h.1)

pub where_rows-All :
    {A : Type 0} (q : A → Bool) (xs : List A) → All (λ x. q x ≡ true) (where_rows q xs)
where_rows-All q [] = tt
where_rows-All q (x ∷ xs) = elim (Bool-cases (q x)) [
  | inl kept ↦ rw kept (kept, where_rows-All q xs)
  | inr out ↦ rw out (where_rows-All q xs)
]

abbrev pub Listed : List Product → Product → Type 0
Listed ps p = exists_row (owned_product p.user_id p.id) ps ≡ true

Listed-more : (x : Product) (qs ps : List Product) → All (Listed ps) qs → All (Listed (x ∷ ps)) qs
Listed-more x [] ps h = tt
Listed-more x (q ∷ qs) ps h = (ground (arith, h.0), Listed-more x qs ps h.1)

pub All-Listed : (ps : List Product) → All (Listed ps) ps
All-Listed [] = tt
All-Listed (p ∷ ps) =
    (ground (arith, ==_refl p.id, ==_refl p.user_id), Listed-more p ps ps (All-Listed ps))

abbrev pub mine : Uuid → Product → Bool
mine user p = p.user_id == user

module _ (user : Uuid) (db : Database) (distinct : DistinctBalances db.balances) where
  Fits-Projected :
      (p : Product)
      → p.user_id ≡ user
      → Listed db.products p
      → Fits (list_product_balances_sql user db) (get_product_ledger_balance_sql user p.id db)
      → Projected db.movements db.balances p
  unfolding get_product_ledger_balance_sql
  Fits-Projected p own there fits =
      let (b, e, q, l) =
        differences-none (get_product_ledger_balance_sql user p.id db)
          (last_row (of_id p.id) (list_product_balances_sql user db)) fits in
      let here = subst (λ u. exists_row (owned_product u p.id) db.products ≡ true) own there in
      (b, sym (lookup_lem user db distinct p.id here) ∙ e, rw own q, rw own l)

  Projected-Fits :
      (p : Product)
      → p.user_id ≡ user
      → Listed db.products p
      → Projected db.movements db.balances p
      → Fits (list_product_balances_sql user db) (get_product_ledger_balance_sql user p.id db)
  unfolding get_product_ledger_balance_sql
  Projected-Fits p own there (b, e, q, l) =
      let here = subst (λ u. exists_row (owned_product u p.id) db.products ≡ true) own there in
      rw (lookup_lem user db distinct p.id here, e)
        (none-differences (get_product_ledger_balance_sql user p.id db) b (rw own at q)
          (rw own at l))

  pub ledger-Projected :
      (ps : List Product)
      → All (Listed db.products) ps
      → All (Fits (list_product_balances_sql user db)) (ledger_balances_of user ps db)
      → All (Projected db.movements db.balances) (where_rows (mine user) ps)
  ledger-Projected [] there h = tt
  ledger-Projected (p ∷ ps) there h = elim (Bool-cases (p.user_id == user)) [
    | inl own ↦
        let h' = rw own at h in
        rw own (
          Fits-Projected p (==_lem p.user_id user own) there.0 h'.0,
          ledger-Projected ps there.1 h'.1,
        )
    | inr other ↦ rw other (ledger-Projected ps there.1 (rw other at h))
  ]

  pub Projected-ledger :
      (ps : List Product)
      → All (Listed db.products) ps
      → All (Projected db.movements db.balances) (where_rows (mine user) ps)
      → All (Fits (list_product_balances_sql user db)) (ledger_balances_of user ps db)
  Projected-ledger [] there h = tt
  Projected-ledger (p ∷ ps) there h = elim (Bool-cases (p.user_id == user)) [
    | inl own ↦
        let h' = rw own at h in
        rw own (
          Projected-Fits p (==_lem p.user_id user own) there.0 h'.0,
          Projected-ledger ps there.1 h'.1,
        )
    | inr other ↦ rw other (Projected-ledger ps there.1 (rw other at h))
  ]
