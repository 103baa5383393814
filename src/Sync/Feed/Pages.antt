-- ===== src/Sync/Feed/Pages.antt =====
-- The pages of the change feed lose nothing: a page and what follows its cursor are what followed
-- the cursor before (server/internal/sync/service.go).
use stok_sync.Common.{
  Bool, false, ap₂, subst, List, [], ◌∷◌, ◌++◌, map, ◌≡◌, refl, sym, ap, ◌∙◌, arith, ◌==◌, ltb, ℕ,
  suc, ◌≤◌,
}
use stok_sync.Common.Int.{ℤ, pos, pos_part, ◌<ℤ◌, ◌≤ℤ◌, ◌+ℤ◌, +ℤ_parts, max_int32_value}
use stok_sync.Common.Lists.{length-take, length, take, drop, take-append-drop}
use stok_sync.Errors.{Uuid, ok}
use stok_sync.Db.Types.{Database, ChangeLogEntry}
use stok_sync.Db.ChangeLog.{list_change_log, list_change_log_sql}
use stok_sync.Db.Tx.{with_snapshot_result, select_rows}
use stok_sync.Sync.Process.Guarantees.{NumberedFrom, IsNumbered}
use stok_sync.Sync.Feed.{ChangeFeed, entry_of, last_seq_of, feed_of, list_changes}
use stok_sync.Sync.Feed.Order.{
  Above, Above-sorted, last_seq_of-lower, rest_lem, pending, pending-later, pending-Above,
  take-more, more_lem,
}

-- What a page is of the log: its rows and the ones after its cursor are all that followed the cursor
-- before, `has_more` tells whether any follow, and the page is within the bound.
abbrev pub Page : Uuid → ℤ → ℕ → List ChangeLogEntry → ChangeFeed → Type 0
Page user cursor most log feed =
    (page : List ChangeLogEntry) × (feed.changes ≡ map entry_of page)
    × (page ++ pending user feed.next_cursor log ≡ pending user cursor log)
    × (feed.has_more ≡ ltb 0 (length (pending user feed.next_cursor log)))
    × (length page ≤ most)

module _ (user : Uuid) (k : ℤ) (n : ℕ) (log : List ChangeLogEntry) where
  following :
      Above (pos 0) log
      → pending user (last_seq_of k (take n (pending user k log))) log ≡ drop n (pending user k log)
  following a =
      sym (
        pending-later user k (last_seq_of k (take n (pending user k log))) log
          (last_seq_of-lower k n (pending user k log) (pending-Above user k (pos 0) log a)))
      ∙ rest_lem k n (pending user k log) (pending-Above user k (pos 0) log a)

  abbrev page_of : List ChangeLogEntry → Bool → ChangeFeed
  page_of rows more = record {
    changes = map entry_of rows;
    next_cursor = last_seq_of k rows;
    has_more = more;
  }

  page_lem : Above (pos 0) log → Page user k n log (feed_of k n (take (suc n) (pending user k log)))
  page_lem a =
      subst
        (λ rows.
          Page user k n log (page_of rows (ltb n (length (take (suc n) (pending user k log))))))
        (sym (take-more n (pending user k log)))
        (
          take n (pending user k log),
          refl,
          ap (λ rows. take n (pending user k log) ++ rows) (following a)
              ∙ take-append-drop n (pending user k log),
          more_lem n (pending user k log) ∙ sym (ap (λ rows. ltb 0 (length rows)) (following a)),
          omega (arith, length-take n (pending user k log)),
        )

rows_lem :
    (user : Uuid) (k most : ℤ) (db : Database)
    → pos 0 <ℤ most
    → Above (pos 0) db.change_log
    → list_change_log_sql (record { user_id = user; after_seq = k; max_changes = most +ℤ pos 1 }) db
      ≡ take (suc (pos_part most)) (pending user k db.change_log)
unfolding list_change_log_sql
rows_lem user k most db positive a =
    ap₂ (λ n rows. take n rows) (one_more most positive)
      (Above-sorted k (pending user k db.change_log) (pending-Above user k (pos 0) db.change_log a))
  where
    one_more : (most : ℤ) → pos 0 <ℤ most → pos_part (most +ℤ pos 1) ≡ suc (pos_part most)
    one_more most positive = ground (arith, +ℤ_parts most (pos 1))

list_lem :
    (user : Uuid) (k most : ℤ) (db : Database)
    → (user == 0) ≡ false
    → pos 0 ≤ℤ k
    → pos 0 <ℤ most
    → most <ℤ max_int32_value
    → list_changes user k most db ≡ (
      ok (
          feed_of k (pos_part most) (
            list_change_log_sql
              (record { user_id = user; after_seq = k; max_changes = most +ℤ pos 1 })
              db)),
      db,
    )
unfolding list_changes list_change_log with_snapshot_result select_rows
list_lem user k most db known start positive bounded = ground (arith, +ℤ_parts most (pos 1))

numbered-Above : (k last : ℤ) (es : List ChangeLogEntry) → NumberedFrom k es last → Above k es
numbered-Above k last [] h = tt
numbered-Above k last (e ∷ es) h = (
  ground (arith, +ℤ_parts k (pos 1)),
  subst (λ j. Above j es) (sym h.0) (numbered-Above (k +ℤ pos 1) last es h.1),
)

-- If the change log is numbered without a gap, the account is not nil, the cursor is not negative
-- and the bound is positive and below 2^31 - 1, then `ListChanges` answers a page and leaves the
-- database: its rows, within the bound, followed by the account's entries after its cursor are
-- all the account's entries after the cursor of the request, in order, and `has_more` tells
-- whether any entry follows.
pub list_changes_pages :
    (user : Uuid) (k most : ℤ) (db : Database)
    → (user == 0) ≡ false
    → pos 0 ≤ℤ k
    → pos 0 <ℤ most
    → most <ℤ max_int32_value
    → IsNumbered db
    → (feed : ChangeFeed) × (list_changes user k most db ≡ (ok feed, db))
      × Page user k (pos_part most) db.change_log feed
list_changes_pages user k most db known start positive bounded numbered =
    let above = numbered-Above (pos 0) db.last_seq db.change_log numbered in
    (
      feed_of k (pos_part most) (take (suc (pos_part most)) (pending user k db.change_log)),
      list_lem user k most db known start positive bounded
          ∙ ap (λ rows. (ok (feed_of k (pos_part most) rows), db))
              (rows_lem user k most db positive above),
      page_lem user k (pos_part most) db.change_log above,
    )
