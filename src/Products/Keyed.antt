-- ===== src/Products/Keyed.antt =====
-- Lookups by the key of `products`, before and after an UPDATE of the row with the key
-- (getProductByIDSQL of server/internal/db/queries.go).
use stok_sync.Common.{
  some, Bool, true, false, List, [], ◌∷◌, ◌≡◌, refl, ◌∙◌, sym, subst, arith, ◌==◌, ==_lem,
  Bool-cases, inl, inr, Option, Option-cases, none,
}
use stok_sync.Common.Lists.{find, find-holds, exists_row, update_rows}
use stok_sync.Errors.{Uuid}
use stok_sync.Db.Types.{Product}
use stok_sync.Consistency.{DistinctIds}

module _ (key : Uuid) (hit : Product → Bool)
    (keyed : (p : Product) → hit p ≡ true → p.id ≡ key) where
  found-exists_row :
      (ps : List Product) (old : Product)
      → find hit ps ≡ some old
      → exists_row (λ q. q.id == key) ps ≡ true
  found-exists_row [] old h = cc
  found-exists_row (p ∷ ps) old h = ground (arith, found-exists_row ps old, keyed p)

  alone :
      (p : Product) (ps : List Product) (old : Product)
      → exists_row (λ q. q.id == p.id) ps ≡ false
      → find hit ps ≡ some old
      → (p.id == key) ≡ false
  alone p ps old new h = elim (Bool-cases (p.id == key)) [
    | inr other ↦ other
    | inl same ↦ absurd (
        true-false (
          sym (found-exists_row ps old h)
          ∙ subst (λ i. exists_row (λ q. q.id == i) ps ≡ false) (==_lem p.id key same) new))
  ]
    where
      true-false : true ≡ false → ⊥
      true-false h = cc

  pub keyed-find :
      (ps : List Product) (old : Product)
      → DistinctIds ps
      → find hit ps ≡ some old
      → find (λ q. q.id == key) ps ≡ some old
  keyed-find [] old d h = cc
  keyed-find (p ∷ ps) old d h = elim (Bool-cases (hit p)) [
    | inl here ↦ ground (arith, keyed p here)
    | inr past ↦
        let rest : find hit ps ≡ some old = ground arith in
        rw (alone p ps old d.0 rest) (keyed-find ps old d.1 rest)
  ]

  no_clash :
      (ps : List Product) (p : Product)
      → find (λ q. q.id == key) ps ≡ some p
      → hit p ≡ true
      → find hit ps ≡ none
      → ⊥
  no_clash [] p h holds missing = cc
  no_clash (x ∷ xs) p h holds missing = ground (arith, no_clash xs p)

  pub keyed-missing :
      (ps : List Product) → DistinctIds ps → find (λ q. q.id == key) ps ≡ none → find hit ps ≡ none
  keyed-missing ps d missing = elim (Option-cases (find hit ps)) [
    | inl e ↦ e
    | inr (old, found) ↦ absurd (none-some (sym missing ∙ keyed-find ps old d found))
  ]
    where
      none-some : {old : Product} → Option.none ≡ some old → ⊥
      none-some h = cc

  pub keyed-hit :
      (ps : List Product) (p : Product)
      → DistinctIds ps
      → find (λ q. q.id == key) ps ≡ some p
      → hit p ≡ true
      → find hit ps ≡ some p
  keyed-hit ps p d h holds = elim (Option-cases (find hit ps)) [
    | inl e ↦ absurd (no_clash ps p h holds e)
    | inr (old, found) ↦ found ∙ sym (keyed-find ps old d found) ∙ h
  ]

  pub keyed-miss :
      (ps : List Product) (p : Product)
      → DistinctIds ps
      → find (λ q. q.id == key) ps ≡ some p
      → hit p ≡ false
      → find hit ps ≡ none
  keyed-miss ps p d h fails = elim (Option-cases (find hit ps)) [
    | inl e ↦ e
    | inr (old, found) ↦
        absurd (clash old (sym (keyed-find ps old d found) ∙ h) (find-holds hit ps old found))
  ]
    where
      clash : (old : Product) → some old ≡ some p → hit old ≡ true → ⊥
      clash old same holds = cc

  module _ (change : Product → Product) (kept : (p : Product) → (change p).id ≡ p.id) where
    pub keyed-changed :
        (ps : List Product) (old : Product)
        → DistinctIds ps
        → find hit ps ≡ some old
        → find (λ q. q.id == key) (update_rows hit change ps) ≡ some (change old)
    keyed-changed [] old d h = cc
    keyed-changed (p ∷ ps) old d h = elim (Bool-cases (hit p)) [
      | inl here ↦ ground (arith, keyed p here, kept p)
      | inr past ↦
          let rest : find hit ps ≡ some old = ground arith in
          rw (past, alone p ps old d.0 rest) (keyed-changed ps old d.1 rest)
    ]

    pub others_kept :
        (ps : List Product) (id : Uuid)
        → (id == key) ≡ false
        → find (λ q. q.id == id) (update_rows hit change ps) ≡ find (λ q. q.id == id) ps
    others_kept [] id other = refl
    others_kept (p ∷ ps) id other = elim (Bool-cases (hit p)) [
      | inl here ↦ ground (arith, keyed p here, kept p, others_kept ps id other)
      | inr past ↦ ground (arith, others_kept ps id other)
    ]
