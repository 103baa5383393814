-- ===== src/Sync/Operations/Effect.antt =====
-- The effect of `applyOperation`: an applied result comes with one domain mutation and its change, a
-- rejected one with neither.
use stok_sync.Common.{
  none, some, false, ◌≡◌, refl, ◌∙◌, arith, Bool-cases, Option-cases, inl, inr, ◌⊎◌,
}
use stok_sync.Errors.{Error, Result, ok, err}
use stok_sync.Db.Types.{Product}
use stok_sync.Db.Tx.{TxState, Tx, release_savepoint, rollback_to_savepoint, set_savepoint}
use stok_sync.Db.Tx.Ends.{Ends}
use stok_sync.Consistency.Step.{DomainStep}
use stok_sync.Movements.Effect.{Untouched}
use stok_sync.Sync.Operations.{
  Applied, recovered, domain_reason, run_product_mutation_with_barcode_recovery,
  is_barcode_conflict,
}

-- What a call has done to the tables of `s` when it returned an outcome.
abbrev pub Outcome : TxState → Applied → TxState → Type 0
Outcome s (result, none) t = (t.db ≡ s.db) × (result.status ≡ "rejected") × (result.seq ≡ none)
Outcome s (result, some change) t =
    DomainStep s.db t.db × (result.status ≡ "applied") × (result.seq ≡ none)

-- An error that is answered by a rejection has left the tables of `s`.
abbrev pub Failed : TxState → Error → TxState → Type 0
Failed s e t = (t.db ≡ s.db) ⊎ (domain_reason e ≡ none)

abbrev pub Stepped : TxState → Product → TxState → Type 0
Stepped s p t = DomainStep s.db t.db

abbrev saved : TxState → TxState
saved s = record s { savepoint = some s.db }

release-db : (t : TxState) → (release_savepoint t).1.db ≡ t.db
unfolding release_savepoint
release-db t = ground arith

released-ok :
    (s t : TxState) (p : Product) → Stepped s p t → Ends (Failed s) (Stepped s) (recovered (ok p) t)
unfolding release_savepoint
released-ok s t p h = elim (Bool-cases t.aborted) [
  | inl dead ↦ rw dead (inr refl)
  | inr live ↦ elim (Option-cases t.savepoint) [
    | inl gone ↦ rw (live, gone) (inr refl)
    | inr (d, there) ↦ rw (live, there) h
  ]
]

released-err :
    (s t : TxState) (e : Error)
    → (t.db ≡ s.db) × (t.savepoint ≡ some s.db)
    → Ends (Failed s) (Stepped s) (recovered (err e) t)
unfolding rollback_to_savepoint release_savepoint
released-err s t e h = elim (Bool-cases (is_barcode_conflict e)) [
  | inl conflict ↦ rw (conflict, h.1) (inl refl)
  | inr other ↦ rw other (inl (unfold release_savepoint in release-db t ∙ h.0))
]

-- The savepoint undoes a failed mutation, and keeps a successful one.
pub recovery-Ends :
    (mutate : Tx Product) (s : TxState)
    → ((u : TxState) → Ends (Untouched u) (Stepped u) (mutate u))
    → Ends (Failed s) (Stepped s) (run_product_mutation_with_barcode_recovery mutate s)
unfolding run_product_mutation_with_barcode_recovery set_savepoint
recovery-Ends mutate s acts = elim (Bool-cases s.aborted) [
  | inl dead ↦ rw dead (inl refl)
  | inr live ↦ rw live (go (mutate marked) (acts marked))
]
  where
    marked : TxState
    marked = record s { aborted = false; savepoint = some s.db }

    go :
        (r : Result Product × TxState)
        → Ends (Untouched marked) (Stepped marked) r
        → Ends (Failed s) (Stepped s) (recovered r.0 r.1)
    go (ok p, t) h = released-ok s t p h
    go (err e, t) h = released-err s t e h
