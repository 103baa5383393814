-- ===== src/Db/SyncOps.antt =====
-- The statements on `sync_ops` and `devices` (server/internal/db/queries.go, auth_queries.go).
use stok_sync.Common.{Option, none, some, Bool, not, ◌&&◌, ◌||◌, ◌∷◌, if◌then◌else◌, ◌==◌}
use stok_sync.Common.Lists.{find, exists_row, update_rows}
use stok_sync.Errors.{Uuid, Result, ok, err, no_rows}
use stok_sync.Db.Types.{
  Database, Device, SyncOperation, InsertSyncOperationParams, UpdateSyncOperationParams,
}
use stok_sync.Db.Tx.{Outcome, row, no_row, Tx, statement, select_one, attempt, pure, fail, ◌>>=◌}
use stok_sync.Db.Products.{owns_device}

abbrev pub of_key : Uuid → Uuid → SyncOperation → Bool
of_key device op s = s.device_id == device && s.op_id == op

unfoldable pub get_sync_operation_sql : Uuid → Uuid → Uuid → Database → Option SyncOperation
get_sync_operation_sql user device op db =
    find (λ s. s.user_id == user && of_key device op s) db.sync_ops

abbrev pub reserved : InsertSyncOperationParams → Database → SyncOperation
reserved params db = record {
  device_id = params.device_id;
  op_id = params.op_id;
  user_id = params.user_id;
  status = params.status;
  reason = params.reason;
  response = db.jsonb params.response;
  received_at = db.clock;
  completed_at = params.completed_at;
}

-- ON CONFLICT (device_id, op_id) DO NOTHING returns no row.
unfoldable pub try_insert_sync_operation_sql :
    InsertSyncOperationParams → Database → Outcome SyncOperation
try_insert_sync_operation_sql params db =
    if not (owns_device params.user_id params.device_id db.devices)
      || exists_row (of_key params.device_id params.op_id) db.sync_ops
    then no_row
    else row (reserved params db) (record db { sync_ops = reserved params db ∷ db.sync_ops })

abbrev pub update_key : UpdateSyncOperationParams → SyncOperation → Bool
update_key params s = s.user_id == params.user_id && of_key params.device_id params.op_id s

abbrev pub finalized : UpdateSyncOperationParams → Database → SyncOperation → SyncOperation
finalized params db s = record s {
  status = params.status;
  reason = params.reason;
  response = db.jsonb params.response;
  completed_at = params.completed_at;
}

unfoldable pub update_sync_operation_sql :
    UpdateSyncOperationParams → Database → Outcome SyncOperation
update_sync_operation_sql params db = elim (find (update_key params) db.sync_ops) [
  | none ↦ no_row
  | some s ↦
      row (finalized params db s)
        (record db { sync_ops = update_rows (update_key params) (finalized params db) db.sync_ops })
]

unfoldable pub get_sync_operation : Uuid → Uuid → Uuid → Tx SyncOperation
unfolding select_one get_sync_operation_sql
get_sync_operation user device op = select_one (get_sync_operation_sql user device op)

abbrev insertion : Result SyncOperation → Tx (Option SyncOperation)
insertion (ok operation) = pure (some operation)
insertion (err no_rows) = pure none
insertion (err e) = fail e

-- `none` stands for `inserted == false`.
unfoldable pub try_insert_sync_operation : InsertSyncOperationParams → Tx (Option SyncOperation)
unfolding statement try_insert_sync_operation_sql
try_insert_sync_operation params = do
  reply ← attempt (statement (try_insert_sync_operation_sql params))
  insertion reply

unfoldable pub update_sync_operation : UpdateSyncOperationParams → Tx SyncOperation
unfolding statement update_sync_operation_sql
update_sync_operation params = statement (update_sync_operation_sql params)

unfoldable pub get_device : Uuid → Uuid → Tx Device
unfolding select_one
get_device user device =
    select_one (λ db. find (λ d. d.user_id == user && d.id == device) db.devices)
