-- ===== src/Sync/Process.antt =====
-- `processOperation`: the idempotency key, the change log and the finalized outcome
-- (server/internal/sync/operations.go), and the transaction around them (service.go).
pub mod Fresh
pub mod Run
pub mod Guarantees
pub mod Replay
pub mod Calls
pub mod Later
use stok_sync.Common.{
  Option, none, some, Bool, true, false, not, ◌&&◌, ◌||◌, List, [], ◌∷◌, String, if◌then◌else◌,
  ◌==◌,
}
use stok_sync.Common.Int.{ℤ, pos}
use stok_sync.Common.Text.{str_eq, trim_space}
use stok_sync.Errors.{Uuid, Time, zero_time, SyncError, Error, sync_error, Result, ok, err}
use stok_sync.Db.Types.{
  Database, SyncOperation, InsertSyncOperationParams, UpdateSyncOperationParams, ChangeLogEntry,
  AppendChangeLogParams,
}
use stok_sync.Db.Tx.{Tx, pure, fail, from_result, attempt, map_error, ◌>>=◌, ◌>>◌, with_tx_result}
use stok_sync.Db.ChangeLog.{append_change_log}
use stok_sync.Db.SyncOps.{try_insert_sync_operation, get_sync_operation, update_sync_operation}
use stok_sync.Sync.Dto.{Operation, OperationResult, Codec}
use stok_sync.Sync.Limits.{Checked, valid, rejected, default_limits}
use stok_sync.Sync.Response.{new_sync_response, validate_response}
use stok_sync.Sync.Operations.{
  Identity, OperationChange, Applied, apply_operation, or_marshal_error,
}

abbrev pub invalid_stored : Error
invalid_stored = sync_error SyncError.invalid_stored_operation_response

abbrev pub reservation : Identity → Uuid → InsertSyncOperationParams
reservation identity op_id = record {
  device_id = identity.device_id;
  op_id = op_id;
  user_id = identity.user_id;
  status = "processing";
  reason = none;
  response = "{}";
  completed_at = none;
}

abbrev pub change_params : Identity → OperationChange → AppendChangeLogParams
change_params identity change = record {
  user_id = identity.user_id;
  entity = change.entity;
  entity_id = change.entity_id;
  op = change.op;
  payload = change.payload;
  origin_device_id = some identity.device_id;
}

abbrev pub with_seq : OperationResult → ℤ → OperationResult
with_seq result seq = record result { seq = some seq }

-- The change-log entry of an applied operation, whose sequence its result carries.
unfoldable pub record_change : Identity → Applied → Tx OperationResult
record_change identity (result, none) = pure result
record_change identity (result, some change) = do
  entry ← append_change_log (change_params identity change)
  pure (with_seq result entry.seq)

abbrev reason_of : String → Option String
reason_of reason = if str_eq reason "" then none else some reason

abbrev pub outcome_params :
    Identity → Uuid → OperationResult → String → Time → UpdateSyncOperationParams
outcome_params identity op_id result response now = record {
  device_id = identity.device_id;
  op_id = op_id;
  user_id = identity.user_id;
  status = result.status;
  reason = reason_of result.reason;
  response = response;
  completed_at = some now;
}

module _ (codec : Codec) (now : Time) where
  unfoldable pub finalize_operation : Identity → Uuid → OperationResult → Tx (Unit {0})
  finalize_operation identity op_id result = do
    response ← from_result (or_marshal_error (codec.marshal_result result))
    stored ← update_sync_operation (outcome_params identity op_id result response now)
    pure tt

  abbrev pub replay_decoded : Uuid → Option OperationResult → Result OperationResult
  replay_decoded op_id none = err invalid_stored
  replay_decoded op_id (some result) =
      if not (result.op_id == op_id)
      then err invalid_stored
      else elim (validate_response codec default_limits
          (new_sync_response (result ∷ []) [] (pos 0) false (pos 62135596800000000))) [
            | rejected _ ↦ err invalid_stored
            | valid _ ↦ ok result
          ]

  -- `time.Unix(0, 0)` is 62135596800 seconds after the zero time.
  unfoldable pub replay_stored_operation : Identity → Uuid → SyncOperation → Result OperationResult
  replay_stored_operation identity op_id stored =
      if not (stored.user_id == identity.user_id)
        || not (stored.device_id == identity.device_id)
        || not (stored.op_id == op_id)
      then err invalid_stored
      else if str_eq (trim_space stored.response) ""
      then err invalid_stored
      else replay_decoded op_id (codec.decode_result stored.response)

  unfoldable pub replay : Identity → Uuid → Tx OperationResult
  replay identity op_id = do
    stored ←
        map_error (λ _. invalid_stored)
          (get_sync_operation identity.user_id identity.device_id op_id)
    from_result (replay_stored_operation identity op_id stored)

  -- The steps after the key was reserved.
  unfoldable pub process_fresh : Identity → Operation → Tx OperationResult
  process_fresh identity o = do
    applied ← apply_operation codec identity o
    result ← record_change identity applied
    finalize_operation identity o.op_id result
    pure result

  abbrev pub reserved_or_not : Identity → Operation → Option SyncOperation → Tx OperationResult
  reserved_or_not identity o none = replay identity o.op_id
  reserved_or_not identity o (some _) = process_fresh identity o

  unfoldable pub process_operation : Identity → Operation → Tx OperationResult
  process_operation identity o =
      if o.op_id == 0
      then fail (sync_error SyncError.invalid_operation)
      else try_insert_sync_operation (reservation identity o.op_id) >>= reserved_or_not identity o

  -- `ProcessOperation` of the service.
  unfoldable pub run_operation : Identity → Operation → Database → Result OperationResult × Database
  run_operation identity o db =
      if identity.user_id == 0 || identity.device_id == 0
      then (err (sync_error SyncError.invalid_identity), db)
      else with_tx_result (process_operation identity o) db
