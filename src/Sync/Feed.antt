-- ===== src/Sync/Feed.antt =====
-- `ValidateDevice` and `ListChanges` (server/internal/sync/service.go): the pages of the change log.
pub mod Devices
pub mod Order
pub mod Pages
use stok_sync.Common.{
  Option, none, some, Bool, not, ◌||◌, List, [], ◌∷◌, map, if◌then◌else◌, ◌==◌, ℕ, ltb,
}
use stok_sync.Common.Int.{ℤ, pos, pos_part, ◌+ℤ◌, ltb_ℤ, leb_ℤ, max_int32_value}
use stok_sync.Common.Lists.{length, take}
use stok_sync.Errors.{Uuid, SyncError, sync_error, no_rows, Error, Result, ok, err}
use stok_sync.Db.Types.{Database, Device, ChangeLogEntry}
use stok_sync.Db.Tx.{Tx, pure, fail, attempt, ◌>>=◌, with_tx_result, with_snapshot_result}
use stok_sync.Db.ChangeLog.{list_change_log}
use stok_sync.Db.SyncOps.{get_device}
use stok_sync.Sync.Dto.{ChangeEntry}

pub record ChangeFeed : Type 0 where
  pub changes : List ChangeEntry
  pub next_cursor : ℤ
  pub has_more : Bool

abbrev registered : Uuid → Uuid → Result Device → Tx Device
registered user device (err no_rows) = fail (sync_error SyncError.device_not_registered)
registered user device (err e) = fail e
registered user device (ok found) =
    if not (found.id == device) || not (found.user_id == user)
    then fail (sync_error SyncError.device_not_registered)
    else pure found

unfoldable pub validate_device : Uuid → Uuid → Database → Result Device × Database
unfolding with_tx_result
validate_device user device db =
    if user == 0 || device == 0
    then (err (sync_error SyncError.invalid_identity), db)
    else with_tx_result (attempt (get_device user device) >>= registered user device) db

abbrev pub entry_of : ChangeLogEntry → ChangeEntry
entry_of e = record {
  seq = e.seq;
  entity = e.entity;
  op = e.op;
  payload = e.payload;
  origin_device_id = e.origin_device_id;
  created_at = some e.created_at;
}

-- `feed.NextCursor` after the loop over the rows.
abbrev pub last_seq_of : ℤ → List ChangeLogEntry → ℤ
last_seq_of cursor [] = cursor
last_seq_of cursor (e ∷ es) = last_seq_of e.seq es

-- `hasMore` and the slice to `maxChanges` rows, from one row more than that.
abbrev pub feed_of : ℤ → ℕ → List ChangeLogEntry → ChangeFeed
feed_of cursor most rows = record {
  changes = map entry_of (take most rows);
  next_cursor = last_seq_of cursor (take most rows);
  has_more = ltb most (length rows);
}

unfoldable pub list_changes : Uuid → ℤ → ℤ → Database → Result ChangeFeed × Database
unfolding with_snapshot_result
list_changes user after_seq max_changes db =
    if user == 0
    then (err (sync_error SyncError.invalid_identity), db)
    else if ltb_ℤ after_seq (pos 0)
    then (err (sync_error SyncError.invalid_change_feed_cursor), db)
    else if leb_ℤ max_changes (pos 0) || leb_ℤ max_int32_value max_changes
    then (err (sync_error SyncError.invalid_change_feed_limit), db)
    else with_snapshot_result
        (list_change_log
            (record { user_id = user; after_seq = after_seq; max_changes = max_changes +ℤ pos 1 })
          >>= λ rows. pure (feed_of after_seq (pos_part max_changes) rows))
        db
