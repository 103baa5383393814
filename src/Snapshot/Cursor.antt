-- ===== src/Snapshot/Cursor.antt =====
-- The change feed goes on where a snapshot ends (server/internal/snapshot/service.go and
-- server/internal/sync/service.go).
use stok_sync.Common.{
  Bool, true, false, List, [], ◌∷◌, ◌++◌, if◌then◌else◌, ◌==◌, ◌≡◌, refl, subst, ap, sym, ◌∙◌,
  arith,
}
use stok_sync.Common.Int.{ℤ, pos, ◌+ℤ◌, ◌≤ℤ◌, ltb_ℤ, +ℤ_parts}
use stok_sync.Common.Lists.{where_rows}
use stok_sync.Errors.{Uuid, ok, err}
use stok_sync.Db.Types.{Database, ChangeLogEntry}
use stok_sync.Sync.Process.Guarantees.{NumberedFrom, IsNumbered}
use stok_sync.Sync.Feed.Order.{pending}
use stok_sync.Snapshot.{Limits, Snapshot, out_of_rows, get_snapshot}
use stok_sync.Snapshot.Complete.{get_snapshot-replica, is_too_large, replica, too_large}

counter_grows : (k last : ℤ) (es : List ChangeLogEntry) → NumberedFrom k es last → k ≤ℤ last
counter_grows k last [] h = subst (λ z. k ≤ℤ z) (sym h) (omega arith)
counter_grows k last (e ∷ es) h =
    omega (arith, counter_grows (k +ℤ pos 1) last es h.1, +ℤ_parts k (pos 1))

abbrev pub of_account : Uuid → ChangeLogEntry → Bool
of_account user e = e.user_id == user

above_cursor : (k j seq : ℤ) → k ≤ℤ j → seq ≡ j +ℤ pos 1 → ltb_ℤ k seq ≡ true
above_cursor k j seq h e = rw e (ground (arith, +ℤ_parts j (pos 1)))

later_pending :
    (user : Uuid) (k j last : ℤ) (es : List ChangeLogEntry)
    → k ≤ℤ j
    → NumberedFrom j es last
    → pending user k es ≡ where_rows (of_account user) es
later_pending user k j last [] h numbered = refl
later_pending user k j last (e ∷ es) h numbered = ground (
  arith,
  above_cursor k j e.seq h numbered.0,
  later_pending user k (j +ℤ pos 1) last es (omega (arith, h, +ℤ_parts j (pos 1))) numbered.1,
)

at_cursor : (k last seq : ℤ) → seq ≡ k → k ≤ℤ last → ltb_ℤ last seq ≡ false
at_cursor k last seq e h = rw e (ground arith)

rest_pending :
    (user : Uuid) (k last last' : ℤ) (es later : List ChangeLogEntry)
    → NumberedFrom k es last
    → NumberedFrom k (es ++ later) last'
    → pending user last (es ++ later) ≡ where_rows (of_account user) later
rest_pending user k last last' [] later here all =
    later_pending user last k last' later (subst (λ z. z ≤ℤ k) (sym here) (omega arith)) all
rest_pending user k last last' (e ∷ es) later here all = ground (
  arith,
  at_cursor (k +ℤ pos 1) last e.seq here.0 (counter_grows (k +ℤ pos 1) last es here.1),
  rest_pending user (k +ℤ pos 1) last last' es later here.1 all.1,
)

-- If the change log is numbered when a snapshot is answered, and numbered when more entries stand after it,
-- then the account's entries after the snapshot's cursor are exactly its entries among those added
-- since.
pub get_snapshot-pending :
    (limits : Limits) (user : Uuid) (db db' : Database) (s : Snapshot) (later : List ChangeLogEntry)
    (last : ℤ)
    → (user == 0) ≡ false
    → out_of_rows limits.max_products ≡ false
    → out_of_rows limits.max_movements ≡ false
    → get_snapshot limits user db ≡ (ok s, db')
    → IsNumbered db
    → NumberedFrom (pos 0) (db.change_log ++ later) last
    → pending user s.cursor (db.change_log ++ later) ≡ where_rows (of_account user) later
get_snapshot-pending limits user db db' s later last known few_products few_movements answers here
      all =
    subst (λ k. pending user k (db.change_log ++ later) ≡ where_rows (of_account user) later)
      (cursor_lem (is_too_large user db limits) (
        ap (λ r. r.0)
          (sym (get_snapshot-replica user db limits known few_products few_movements) ∙ answers)))
      (rest_pending user (pos 0) db.last_seq last db.change_log later here all)
  where
    cursor_lem :
        (b : Bool) → (if b then too_large else ok (replica user db)) ≡ ok s → db.last_seq ≡ s.cursor
    cursor_lem true h = cc
    cursor_lem false h = ap (λ r. elim r [ ok x ↦ x.cursor | err _ ↦ db.last_seq ]) h
