-- ===== src/Sync/Feed/Order.antt =====
-- The change log in the order of its sequences, and its entries after a cursor
-- (server/internal/sync/service.go, and the ORDER BY of server/internal/db/queries.go).
use stok_sync.Common.{
  Bool, true, false, Bool-cases, inl, inr, ◌&&◌, List, [], ◌∷◌, ◌≡◌, refl, ap, ◌∙◌, arith, ◌==◌,
  ltb, ℕ, zero, suc, if◌then◌else◌,
}
use stok_sync.Common.Int.{ℤ, ◌<ℤ◌, ◌≤ℤ◌, ltb_ℤ}
use stok_sync.Common.Lists.{length, take, drop, where_rows, sort_by, insert_by}
use stok_sync.Errors.{Uuid}
use stok_sync.Db.Types.{ChangeLogEntry}
use stok_sync.Db.ChangeLog.{seq_order}
use stok_sync.Sync.Feed.{last_seq_of}

-- Sequences in strictly ascending order, all above `k`.
abbrev pub Above : ℤ → List ChangeLogEntry → Type 0
Above k [] = Unit
Above k (e ∷ es) = (k <ℤ e.seq) × Above e.seq es

abbrev past : ℤ → ChangeLogEntry → Bool
past k e = ltb_ℤ k e.seq

Above-weaken : (k k' : ℤ) (es : List ChangeLogEntry) → k ≤ℤ k' → Above k' es → Above k es
Above-weaken k k' [] h a = tt
Above-weaken k k' (e ∷ es) h a = (omega (arith, h, a.0), a.1)

pub Above-sorted : (k : ℤ) (es : List ChangeLogEntry) → Above k es → sort_by seq_order es ≡ es
Above-sorted k [] a = refl
Above-sorted k (e ∷ es) a = ap (insert_by seq_order e) (Above-sorted e.seq es a.1) ∙ first e es a.1
  where
    first :
        (e : ChangeLogEntry) (es : List ChangeLogEntry)
        → Above e.seq es
        → insert_by seq_order e es ≡ e ∷ es
    first e [] a = refl
    first e (f ∷ es) a = ground arith

Above-where_rows :
    (p : ChangeLogEntry → Bool) (k : ℤ) (es : List ChangeLogEntry)
    → Above k es
    → Above k (where_rows p es)
Above-where_rows p k [] a = tt
Above-where_rows p k (e ∷ es) a =
    kept (p e) (Above-where_rows p e.seq es a.1) (
      Above-weaken k e.seq (where_rows p es) (omega (arith, a.0)) (Above-where_rows p e.seq es a.1))
  where
    kept :
        (b : Bool)
        → Above e.seq (where_rows p es)
        → Above k (where_rows p es)
        → Above k (if b then e ∷ where_rows p es else where_rows p es)
    kept true above weaker = (a.0, above)
    kept false above weaker = weaker

all_past : (k : ℤ) (es : List ChangeLogEntry) → Above k es → where_rows (past k) es ≡ es
all_past k [] a = refl
all_past k (e ∷ es) a =
    ground (arith, all_past k es (Above-weaken k e.seq es (omega (arith, a.0)) a.1))

pub last_seq_of-lower :
    (k : ℤ) (n : ℕ) (es : List ChangeLogEntry) → Above k es → k ≤ℤ last_seq_of k (take n es)
last_seq_of-lower k zero es a = omega arith
last_seq_of-lower k (suc n) [] a = omega arith
last_seq_of-lower k (suc n) (e ∷ es) a = omega (arith, a.0, last_seq_of-lower e.seq n es a.1)

pub rest_lem :
    (k : ℤ) (n : ℕ) (es : List ChangeLogEntry)
    → Above k es
    → where_rows (past (last_seq_of k (take n es))) es ≡ drop n es
rest_lem k zero es a = all_past k es a
rest_lem k (suc n) [] a = refl
rest_lem k (suc n) (e ∷ es) a =
    ground (arith, last_seq_of-lower e.seq n es a.1, rest_lem e.seq n es a.1)

-- The account's entries after a cursor, in the order of the log.
abbrev pub pending : Uuid → ℤ → List ChangeLogEntry → List ChangeLogEntry
pending user k = where_rows (λ e. e.user_id == user && past k e)

pub pending-later :
    (user : Uuid) (k k' : ℤ) (es : List ChangeLogEntry)
    → k ≤ℤ k'
    → where_rows (past k') (pending user k es) ≡ pending user k' es
pending-later user k k' [] h = refl
pending-later user k k' (e ∷ es) h = ground (arith, pending-later user k k' es h)

pub take-more : {A : Type 0} (n : ℕ) (xs : List A) → take n (take (suc n) xs) ≡ take n xs
take-more zero xs = refl
take-more (suc n) [] = refl
take-more (suc n) (x ∷ xs) = ap (λ ys. x ∷ ys) (take-more n xs)

pub more_lem :
    {A : Type 0} (n : ℕ) (xs : List A)
    → ltb n (length (take (suc n) xs)) ≡ ltb 0 (length (drop n xs))
more_lem zero [] = refl
more_lem zero (x ∷ xs) = ground arith
more_lem (suc n) [] = ground arith
more_lem (suc n) (x ∷ xs) = ground (arith, more_lem n xs)

pub pending-Above :
    (user : Uuid) (k j : ℤ) (es : List ChangeLogEntry) → Above j es → Above k (pending user k es)
pending-Above user k j [] a = tt
pending-Above user k j (e ∷ es) a = elim (Bool-cases (e.user_id == user && past k e)) [
  | inl kept ↦ rw kept (ground arith, Above-where_rows _ e.seq es a.1)
  | inr skipped ↦ rw skipped (pending-Above user k e.seq es a.1)
]
