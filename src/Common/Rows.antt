-- ===== src/Common/Rows.antt =====
-- Lookups in sorted and filtered rows, where at most one row passes the test.
use Prim.Native.Nat.{suc}
use mathlib.Core.Path.{◌≡◌, refl, ap, ◌∙◌}
use mathlib.Core.Logic.{inl, inr}
use mathlib.Core.Bool.{Bool, true, false, ◌||◌}
use mathlib.Core.Option.{none, some}
use mathlib.Core.List.{List, [], ◌∷◌}
use native.Mathlib.Omega.{arith}
use stok_sync.Common.Tests.{if◌then◌else◌, Bool-cases}
use stok_sync.Common.Lists.{length, find, exists_row, last_row, sort_by, insert_by, where_rows, All}

module _ {A : Type 0} where
  -- At most one row passes the test.
  abbrev pub AtMostOne : (A → Bool) → List A → Type 0
  AtMostOne p [] = Unit
  AtMostOne p (x ∷ xs) = if p x then exists_row p xs ≡ false else AtMostOne p xs

  pub length-insert_by :
      (before : A → A → Bool) (x : A) (xs : List A)
      → length (insert_by before x xs) ≡ suc (length xs)
  length-insert_by before x [] = refl
  length-insert_by before x (y ∷ ys) = ground (arith, length-insert_by before x ys)

  pub length-sort_by :
      (before : A → A → Bool) (xs : List A) → length (sort_by before xs) ≡ length xs
  length-sort_by before [] = refl
  length-sort_by before (x ∷ xs) =
      length-insert_by before x (sort_by before xs) ∙ ap suc (length-sort_by before xs)

  exists_row-insert_by :
      (p : A → Bool) (before : A → A → Bool) (x : A) (xs : List A)
      → exists_row p (insert_by before x xs) ≡ (p x || exists_row p xs)
  exists_row-insert_by p before x [] = refl
  exists_row-insert_by p before x (y ∷ ys) = ground (arith, exists_row-insert_by p before x ys)

  pub exists_row-sort_by :
      (p : A → Bool) (before : A → A → Bool) (xs : List A)
      → exists_row p (sort_by before xs) ≡ exists_row p xs
  exists_row-sort_by p before [] = refl
  exists_row-sort_by p before (x ∷ xs) =
      exists_row-insert_by p before x (sort_by before xs)
      ∙ ap (λ b. p x || b) (exists_row-sort_by p before xs)

  absent-last_row : (p : A → Bool) (xs : List A) → exists_row p xs ≡ false → last_row p xs ≡ none
  absent-last_row p [] h = refl
  absent-last_row p (x ∷ xs) h = ground (arith, absent-last_row p xs)

  insert_past :
      (p : A → Bool) (before : A → A → Bool) (x : A) (xs : List A)
      → p x ≡ false
      → last_row p (insert_by before x xs) ≡ last_row p xs
  insert_past p before x [] h = rw h refl
  insert_past p before x (y ∷ ys) h = ground (arith, insert_past p before x ys)

  insert_only :
      (p : A → Bool) (before : A → A → Bool) (x : A) (xs : List A)
      → p x ≡ true
      → exists_row p xs ≡ false
      → last_row p (insert_by before x xs) ≡ some x
  insert_only p before x [] h absent = rw h refl
  insert_only p before x (y ∷ ys) h absent =
      ground (arith, insert_only p before x ys, absent-last_row p ys)

  -- Then a lookup in the sorted rows, of the last row, is the first row's lookup.
  pub last_row-sort_by :
      (p : A → Bool) (before : A → A → Bool) (xs : List A)
      → AtMostOne p xs
      → last_row p (sort_by before xs) ≡ find p xs
  last_row-sort_by p before [] one = refl
  last_row-sort_by p before (x ∷ xs) one = elim (Bool-cases (p x)) [
    | inl hit ↦ rw hit (
        insert_only p before x (sort_by before xs) hit
          (exists_row-sort_by p before xs ∙ (rw hit at one)))
    | inr miss ↦ rw miss (
        insert_past p before x (sort_by before xs) miss
        ∙ last_row-sort_by p before xs (rw miss at one))
  ]

  find-where_rows :
      (p q : A → Bool) (xs : List A)
      → ((x : A) → p x ≡ true → q x ≡ true)
      → find p (where_rows q xs) ≡ find p xs
  find-where_rows p q [] h = refl
  find-where_rows p q (x ∷ xs) h = ground (arith, h x, find-where_rows p q xs h)

  exists_row-where_rows :
      (p q : A → Bool) (xs : List A)
      → exists_row p xs ≡ false
      → exists_row p (where_rows q xs) ≡ false
  exists_row-where_rows p q [] h = refl
  exists_row-where_rows p q (x ∷ xs) h = ground (arith, exists_row-where_rows p q xs)

  absent-AtMostOne : (p : A → Bool) (xs : List A) → exists_row p xs ≡ false → AtMostOne p xs
  absent-AtMostOne p [] h = tt
  absent-AtMostOne p (x ∷ xs) h = elim (Bool-cases (p x)) [
    | inl hit ↦ rw hit (ground arith)
    | inr miss ↦ rw miss (absent-AtMostOne p xs (rw miss at h))
  ]

  kept-AtMostOne :
      (p q : A → Bool) (x : A) (xs : List A)
      → AtMostOne p (x ∷ xs)
      → AtMostOne p (where_rows q xs)
      → AtMostOne p (where_rows q (x ∷ xs))
  kept-AtMostOne p q x xs one rest = elim (Bool-cases (q x)) [
    | inr out ↦ rw out rest
    | inl kept ↦ elim (Bool-cases (p x)) [
      | inl hit ↦ rw (kept, hit) (exists_row-where_rows p q xs (rw hit at one))
      | inr miss ↦ rw (kept, miss) rest
    ]
  ]

  AtMostOne-tail : (p : A → Bool) (x : A) (xs : List A) → AtMostOne p (x ∷ xs) → AtMostOne p xs
  AtMostOne-tail p x xs one = elim (Bool-cases (p x)) [
    | inl hit ↦ absent-AtMostOne p xs (rw hit at one)
    | inr miss ↦ rw miss at one
  ]

  pub where_rows-AtMostOne :
      (p q : A → Bool) (xs : List A) → AtMostOne p xs → AtMostOne p (where_rows q xs)
  where_rows-AtMostOne p q [] one = tt
  where_rows-AtMostOne p q (x ∷ xs) one =
      kept-AtMostOne p q x xs one (where_rows-AtMostOne p q xs (AtMostOne-tail p x xs one))

  -- A filter that keeps the rows of the test, and a sort, leave the lookup.
  pub last_row-rows :
      (p q : A → Bool) (before : A → A → Bool) (xs : List A)
      → AtMostOne p xs
      → ((x : A) → p x ≡ true → q x ≡ true)
      → last_row p (sort_by before (where_rows q xs)) ≡ find p xs
  last_row-rows p q before xs one keeps =
      last_row-sort_by p before (where_rows q xs) (where_rows-AtMostOne p q xs one)
      ∙ find-where_rows p q xs keeps

  All-insert_by :
      (P : A → Type 0) (before : A → A → Bool) (x : A) (xs : List A)
      → P x
      → All P xs
      → All P (insert_by before x xs)
  All-insert_by P before x [] h hs = (h, tt)
  All-insert_by P before x (y ∷ ys) h hs = elim (Bool-cases (before y x)) [
    | inl later ↦ rw later (hs.0, All-insert_by P before x ys h hs.1)
    | inr here ↦ rw here (h, hs)
  ]

  insert_by-All :
      (P : A → Type 0) (before : A → A → Bool) (x : A) (xs : List A)
      → All P (insert_by before x xs)
      → P x × All P xs
  insert_by-All P before x [] h = h
  insert_by-All P before x (y ∷ ys) h = elim (Bool-cases (before y x)) [
    | inl later ↦
        let h' = rw later at h in
        let rest = insert_by-All P before x ys h'.1 in (rest.0, (h'.0, rest.1))
    | inr here ↦ rw here at h
  ]

  pub All-sort_by :
      (P : A → Type 0) (before : A → A → Bool) (xs : List A) → All P xs → All P (sort_by before xs)
  All-sort_by P before [] h = tt
  All-sort_by P before (x ∷ xs) h =
      All-insert_by P before x (sort_by before xs) h.0 (All-sort_by P before xs h.1)

  pub sort_by-All :
      (P : A → Type 0) (before : A → A → Bool) (xs : List A) → All P (sort_by before xs) → All P xs
  sort_by-All P before [] h = tt
  sort_by-All P before (x ∷ xs) h =
      let rest = insert_by-All P before x (sort_by before xs) h in
      (rest.0, sort_by-All P before xs rest.1)
