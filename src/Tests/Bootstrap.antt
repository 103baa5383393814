-- ===== src/Tests/Bootstrap.antt =====
-- The theorems on snapshots at one account, and at one change that follows.
use stok_sync.Common.{List, Option, ℕ, some, [], ◌∷◌, ◌++◌, ◌≡◌, refl, if◌then◌else◌}
use stok_sync.Common.Int.{pos, ◌+ℤ◌, ◌-ℤ◌}
use stok_sync.Errors.{ok}
use stok_sync.Db.Types.{ChangeLogEntry}
use stok_sync.Db.Movements.{list_ledger_balances_sql}
use stok_sync.Sync.Feed.Order.{pending}
use stok_sync.Snapshot.{is_valid_limits, Limits, get_snapshot}
use stok_sync.Snapshot.Complete.{get_snapshot-replica, is_too_large, replica, too_large}
use stok_sync.Snapshot.Cursor.{get_snapshot-pending}
use stok_sync.Snapshot.Handler.{SnapshotResponse, get, no_body, success, write, malformed_request}
use stok_sync.Snapshot.Handler.Bounded.{Delivered, get-Delivered}
use stok_sync.Tests.World.{store, identity}

abbrev limits : Limits
limits = record {
  max_products = pos 2;
  max_movements = pos 3;
  max_response_bytes = pos 4096;
  max_request_bytes = pos 16;
}

get_snapshot-replica_example :
    get_snapshot limits 7 store
    ≡ ((if is_too_large 7 store limits then too_large else ok (replica 7 store)), store)
get_snapshot-replica_example = get_snapshot-replica 7 store limits refl refl refl

abbrev edit : ChangeLogEntry
edit = record {
  seq = pos 1;
  user_id = 7;
  entity = "product";
  entity_id = 11;
  op = "upsert";
  payload = "{product}";
  origin_device_id = some 3;
  created_at = pos 960;
}

whole : get_snapshot limits 7 store ≡ (ok (replica 7 store), store)
unfolding list_ledger_balances_sql
whole = get_snapshot-replica 7 store limits refl refl refl

get_snapshot-pending_example : pending 7 (pos 0) (store.change_log ++ edit ∷ []) ≡ edit ∷ []
unfolding ◌+ℤ◌
get_snapshot-pending_example =
    get_snapshot-pending limits 7 store store (replica 7 store) (edit ∷ []) (pos 1) refl refl refl
      whole refl (refl, refl)

-- A response of three bytes.
abbrev encode : SnapshotResponse → Option (List ℕ)
encode r = some (123 ∷ 125 ∷ 10 ∷ [])

sends :
    get encode limits limits (some identity) "" no_body store
    ≡ (success (123 ∷ 125 ∷ 10 ∷ []), store)
unfolding get malformed_request write ◌-ℤ◌
sends = rw whole refl

get-Delivered_example : Delivered encode limits limits (some identity) store (123 ∷ 125 ∷ 10 ∷ [])
unfolding is_valid_limits
get-Delivered_example =
    get-Delivered encode limits limits (some identity) "" no_body store store (123 ∷ 125 ∷ 10 ∷ [])
      refl sends
