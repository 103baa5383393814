-- ===== src/Tests/Feed.antt =====
-- A page of the change feed of an account, in a log that two accounts share.
use stok_sync.Common.{some, [], ◌∷◌, ◌≡◌, refl, arith}
use stok_sync.Common.Int.{ℤ, pos, ◌+ℤ◌}
use stok_sync.Errors.{ok}
use stok_sync.Db.Types.{Database, ChangeLogEntry}
use stok_sync.Sync.Feed.Devices.{device_row, registration, validate_device_lem}
use stok_sync.Sync.Feed.{validate_device, ChangeFeed, list_changes}
use stok_sync.Sync.Feed.Pages.{Page, list_changes_pages}
use stok_sync.Sync.Process.Guarantees.{IsNumbered}
use stok_sync.Tests.World.{store}

abbrev entry : ℤ → ChangeLogEntry
entry seq = record {
  seq = seq;
  user_id = 7;
  entity = "product";
  entity_id = 11;
  op = "upsert";
  payload = "{product}";
  origin_device_id = some 3;
  created_at = pos 900;
}

abbrev shared : Database
shared = record store {
  last_seq = pos 4;
  change_log =
      entry (pos 1) ∷ record (entry (pos 2)) { user_id = 8 } ∷ entry (pos 3) ∷ entry (pos 4) ∷ [];
}

shared-IsNumbered : IsNumbered shared
unfolding ◌+ℤ◌
shared-IsNumbered = (refl, (refl, (refl, (refl, refl))))

list_changes_pages_example :
    (feed : ChangeFeed) × (list_changes 7 (pos 0) (pos 2) shared ≡ (ok feed, shared))
    × Page 7 (pos 0) 2 shared.change_log feed
list_changes_pages_example =
    list_changes_pages 7 (pos 0) (pos 2) shared refl (omega arith) (omega arith) (omega arith)
      shared-IsNumbered

validate_device_lem_example :
    validate_device 7 3 store ≡ (registration (device_row 7 3 store), store)
validate_device_lem_example = validate_device_lem 7 3 store refl
