-- ===== src/Db/Tx/Ends.antt =====
-- How a call in a transaction ends: a rule for a sequence, and what each primitive keeps.
use stok_sync.Common.{
  Bool-cases, refl, Option, some, List, ◌≡◌, sym, subst, ap, ◌⊎◌, inl, inr, arith,
}
use stok_sync.Errors.{Error, Result, ok, err}
use stok_sync.Db.Types.{Database}
use stok_sync.Db.Tx.{
  commit, begin, with_tx_result, TxState, Tx, and_then, attempt, statement, select_one, select_rows,
}

abbrev pub Ends :
    {A : Type 0} → (Error → TxState → Type 0) → (A → TxState → Type 0) → Result A × TxState → Type 0
Ends E Q (ok a, s) = Q a s
Ends E Q (err e, s) = E e s

abbrev pub Anyhow : Error → TxState → Type 0
Anyhow e t = Unit

-- The call leaves the state as it was, and a result that it returns satisfies `Q`.
abbrev pub Reads : {A : Type 0} → TxState → (A → Type 0) → Result A × TxState → Type 0
Reads s Q = Ends (λ _ t. t ≡ s) (λ a t. (t ≡ s) × Q a)

module _ {A B : Type 0} (E : Error → TxState → Type 0) (R : B → TxState → Type 0) where
  pub then-Ends :
      (Q : A → TxState → Type 0) (f : A → Tx B) (r : Result A × TxState)
      → Ends E Q r
      → ((a : A) (t : TxState) → Q a t → Ends E R (f a t))
      → Ends E R (and_then f r)
  then-Ends Q f (ok a, t) h next = next a t h
  then-Ends Q f (err e, t) h next = h

  pub then-Reads :
      (s : TxState) (Q : A → Type 0) (f : A → Tx B) (r : Result A × TxState)
      → Reads s Q r
      → ((e : Error) → E e s)
      → ((a : A) → Q a → Ends E R (f a s))
      → Ends E R (and_then f r)
  then-Reads s Q f (ok a, t) h fails next = subst (λ u. Ends E R (f a u)) (sym h.0) (next a h.1)
  then-Reads s Q f (err e, t) h fails next = subst (E e) (sym h) (fails e)

pub select_one-Reads :
    {A : Type 0} (q : Database → Option A) (s : TxState)
    → Reads s (λ a. q s.db ≡ some a) (select_one q s)
unfolding select_one statement
select_one-Reads q s = ground arith

pub select_rows-Reads :
    {A : Type 0} (q : Database → List A) (s : TxState)
    → Reads s (λ rows. rows ≡ q s.db) (select_rows q s)
unfolding select_rows
select_rows-Reads q s = ground arith

-- A looked-at call fails only by the error in its result.
abbrev pub Replied : {A : Type 0} → (A → Type 0) → Result A → Type 0
Replied Q (ok a) = Q a
Replied Q (err e) = Unit

pub attempt-Reads :
    {A : Type 0} (Q : A → Type 0) (s : TxState) (m : Tx A)
    → Reads s Q (m s)
    → Reads s (Replied Q) (attempt m s)
attempt-Reads {A} Q s m h = go (m s) h
  where
    go : (r : Result A × TxState) → Reads s Q r → Reads s (Replied Q) (ok r.0, r.1)
    go (ok a, t) h = h
    go (err e, t) h = (h, tt)

-- To split on a read that the goal calls: its result, or its error, with the state unchanged.
abbrev pub Split : {A : Type 0} → TxState → (A → Type 0) → Result A × TxState → Type 0
Split {A} s Q r = ((a : A) × (r ≡ (ok a, s)) × Q a) ⊎ ((e : Error) × (r ≡ (err e, s)))

pub Reads-Split :
    {A : Type 0} (Q : A → Type 0) (s : TxState) (r : Result A × TxState) → Reads s Q r → Split s Q r
Reads-Split Q s (ok a, t) h = inl (a, ap (λ u. (ok a, u)) h.0, h.1)
Reads-Split Q s (err e, t) h = inr (e, ap (λ u. (err e, u)) h)

pub Ends-mono :
    {A : Type 0} (E : Error → TxState → Type 0) (Q R : A → TxState → Type 0)
    (r : Result A × TxState)
    → Ends E Q r
    → ((a : A) (t : TxState) → Q a t → R a t)
    → Ends E R r
Ends-mono E Q R (ok a, t) h weaken = weaken a t h
Ends-mono E Q R (err e, t) h weaken = h

-- A transaction that fails leaves the database; one that succeeds satisfies `Q`.
abbrev pub Commits :
    {A : Type 0} → (A → Database → Type 0) → Database → Result A × Database → Type 0
Commits Q db (ok a, db') = Q a db'
Commits Q db (err e, db') = db' ≡ db

pub commit-Commits :
    {A : Type 0} (E : Error → TxState → Type 0) (Q : A → Database → Type 0) (db : Database)
    (r : Result A × TxState)
    → Ends E (λ a t. Q a t.db) r
    → Commits Q db (commit db r)
commit-Commits E Q db (err e, t) h = refl
commit-Commits E Q db (ok a, t) h = elim (Bool-cases t.aborted) [
  | inl dead ↦ rw dead refl
  | inr live ↦ rw live h
]

pub with_tx_result-Commits :
    {A : Type 0} (E : Error → TxState → Type 0) (Q : A → Database → Type 0) (fn : Tx A)
    (db : Database)
    → Ends E (λ a t. Q a t.db) (fn (begin db))
    → Commits Q db (with_tx_result fn db)
unfolding with_tx_result
with_tx_result-Commits E Q fn db h = commit-Commits E Q db (fn (begin db)) h
