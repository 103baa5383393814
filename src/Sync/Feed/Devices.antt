-- ===== src/Sync/Feed/Devices.antt =====
-- The registration check of a device (server/internal/sync/service.go).
use stok_sync.Common.{
  ap, sym, ◌∙◌, Bool-cases, Option, none, some, false, ◌&&◌, ◌||◌, ◌≡◌, arith, ◌==◌, Option-cases,
  inl, inr,
}
use stok_sync.Common.Lists.{find, find-holds}
use stok_sync.Errors.{Uuid, Result, ok, err, SyncError, sync_error}
use stok_sync.Db.Types.{Database, Device}
use stok_sync.Db.Tx.{with_tx_result, select_one, statement}
use stok_sync.Db.SyncOps.{get_device}
use stok_sync.Sync.Feed.{validate_device}

abbrev pub device_row : Uuid → Uuid → Database → Option Device
device_row user device db = find (λ d. d.user_id == user && d.id == device) db.devices

registered_device :
    (user device : Uuid) (db : Database) (d : Device)
    → (user == 0 || device == 0) ≡ false
    → device_row user device db ≡ some d
    → validate_device user device db ≡ (ok d, db)
unfolding validate_device with_tx_result get_device select_one statement
registered_device user device db d known found =
    ground (arith, find-holds (λ x. x.user_id == user && x.id == device) db.devices d)

refused_device :
    (user device : Uuid) (db : Database)
    → (user == 0 || device == 0) ≡ false
    → device_row user device db ≡ none
    → validate_device user device db ≡ (err (sync_error SyncError.device_not_registered), db)
unfolding validate_device with_tx_result get_device select_one statement
refused_device user device db known missing = ground arith

abbrev pub registration : Option Device → Result Device
registration none = err (sync_error SyncError.device_not_registered)
registration (some d) = ok d

-- For identifiers that are not nil, a device that is registered with the account is answered, and one
-- that is not, with this account or at all, is refused with `device_not_registered`; nothing is
-- written in either case.
pub validate_device_lem :
    (user device : Uuid) (db : Database)
    → (user == 0 || device == 0) ≡ false
    → validate_device user device db ≡ (registration (device_row user device db), db)
validate_device_lem user device db known = elim (Option-cases (device_row user device db)) [
  | inl missing ↦ rw missing (refused_device user device db known missing)
  | inr (d, found) ↦ rw found (registered_device user device db d known found)
]

registration-ok : (o : Option Device) (d : Device) → registration o ≡ ok d → o ≡ some d
registration-ok none d h = cc
registration-ok (some x) d h = ground arith

-- A device that is answered is a registered one.
pub validate_device-registered :
    (user device : Uuid) (db db' : Database) (d : Device)
    → validate_device user device db ≡ (ok d, db')
    → device_row user device db ≡ some d
unfolding validate_device
validate_device-registered user device db db' d h = elim (Bool-cases (user == 0 || device == 0)) [
  | inl nil ↦ cc (ap (λ r. r.0) (rw nil at h))
  | inr known ↦
      registration-ok (device_row user device db) d
        (ap (λ r. r.0) (sym (validate_device_lem user device db known) ∙ h))
]
