-- ===== src/Sync/Process/Replay.antt =====
-- Idempotency of `ProcessOperation`: a key that has an outcome is answered from it
-- (`replayStoredOperation` of server/internal/sync/operations.go).
use stok_sync.Common.{
  Option, none, some, true, false, ◌&&◌, ◌||◌, List, [], ◌∷◌, ◌≡◌, refl, arith, ◌==◌,
}
use stok_sync.Common.Lists.{exists_row, find}
use stok_sync.Errors.{Uuid, Time, ok}
use stok_sync.Db.Types.{Database, SyncOperation}
use stok_sync.Db.Tx.{TxState, begin, with_tx_result}
use stok_sync.Db.SyncOps.{
  try_insert_sync_operation, of_key, get_sync_operation, get_sync_operation_sql,
}
use stok_sync.Sync.Dto.{Codec, Operation, OperationResult}
use stok_sync.Sync.Operations.{Identity}
use stok_sync.Sync.Process.{
  run_operation, process_operation, replay, replay_stored_operation, reservation,
}

abbrev pub stored_of : Identity → Uuid → Database → Option SyncOperation
stored_of identity op_id = get_sync_operation_sql identity.user_id identity.device_id op_id

find-exists_row :
    (user device op : Uuid) (xs : List SyncOperation) (x : SyncOperation)
    → find (λ s. s.user_id == user && of_key device op s) xs ≡ some x
    → exists_row (of_key device op) xs ≡ true
find-exists_row user device op [] x h = cc
find-exists_row user device op (y ∷ ys) x h = ground (arith, find-exists_row user device op ys x)

pub stored-exists_row :
    (identity : Identity) (op_id : Uuid) (db : Database) (stored : SyncOperation)
    → stored_of identity op_id db ≡ some stored
    → exists_row (of_key identity.device_id op_id) db.sync_ops ≡ true
unfolding get_sync_operation_sql
stored-exists_row identity op_id db stored h =
    find-exists_row identity.user_id identity.device_id op_id db.sync_ops stored h

taken_lem :
    (identity : Identity) (op_id : Uuid) (s : TxState)
    → s.aborted ≡ false
    → exists_row (of_key identity.device_id op_id) s.db.sync_ops ≡ true
    → try_insert_sync_operation (reservation identity op_id) s ≡ (ok none, s)
unfolding try_insert_sync_operation
taken_lem identity op_id s live taken = ground arith

module _ (codec : Codec) (now : Time) (identity : Identity) where
  replay_lem :
      (op_id : Uuid) (s : TxState) (stored : SyncOperation) (result : OperationResult)
      → s.aborted ≡ false
      → stored_of identity op_id s.db ≡ some stored
      → replay_stored_operation codec now identity op_id stored ≡ ok result
      → replay codec now identity op_id s ≡ (ok result, s)
  unfolding replay get_sync_operation
  replay_lem op_id s stored result live found e = rw (live, found, e) refl

  -- If the account's device has a stored operation with the identifier of `o`, which is not nil, and
  -- the stored response is a valid one, then the call answers it and writes nothing, whatever the
  -- kind, the base version and the payload of `o`.
  pub run_operation_replays :
      (o : Operation) (db : Database) (stored : SyncOperation) (result : OperationResult)
      → (identity.user_id == 0 || identity.device_id == 0) ≡ false
      → (o.op_id == 0) ≡ false
      → get_sync_operation_sql identity.user_id identity.device_id o.op_id db ≡ some stored
      → replay_stored_operation codec now identity o.op_id stored ≡ ok result
      → run_operation codec now identity o db ≡ (ok result, db)
  unfolding run_operation with_tx_result process_operation
  run_operation_replays o db stored result known id found e =
      rw
        (
          known,
          id,
          taken_lem identity o.op_id (begin db) refl
              (stored-exists_row identity o.op_id db stored found),
          replay_lem o.op_id (begin db) stored result refl found e,
        )
        refl
