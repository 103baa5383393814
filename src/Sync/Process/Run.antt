-- ===== src/Sync/Process/Run.antt =====
-- `ProcessOperation` as a whole: a replay that writes nothing, or a fresh run that commits.
use stok_sync.Common.{
  Option, none, some, Bool, false, ◌||◌, ◌∷◌, ◌≡◌, refl, ap, subst, arith, ◌==◌, Bool-cases, inl,
  inr, ◌⊎◌,
}
use stok_sync.Common.Lists.{exists_row}
use stok_sync.Errors.{Uuid, Time, Result, ok, err}
use stok_sync.Db.Types.{Database, SyncOperation, InsertSyncOperationParams}
use stok_sync.Db.Tx.{TxState, begin, with_tx_result}
use stok_sync.Db.Tx.Ends.{
  Anyhow, Commits, commit-Commits, Ends, then-Ends, Ends-mono, Reads-Split, select_one-Reads,
}
use stok_sync.Db.SyncOps.{
  try_insert_sync_operation, reserved, of_key, get_sync_operation, get_sync_operation_sql,
}
use stok_sync.Sync.Dto.{Codec, Operation, OperationResult}
use stok_sync.Sync.Operations.{Identity}
use stok_sync.Sync.Process.{
  process_operation, process_fresh, run_operation, reservation, replay, replay_stored_operation,
  reserved_or_not,
}
use stok_sync.Sync.Process.Fresh.{Finished, process_fresh-Ends}

-- The database with the key reserved.
abbrev pub with_reservation : InsertSyncOperationParams → Database → Database
with_reservation params db = record db { sync_ops = reserved params db ∷ db.sync_ops }

abbrev pub key_taken : Identity → Uuid → Database → Bool
key_taken identity op_id db = exists_row (of_key identity.device_id op_id) db.sync_ops

-- The state after the key was tried: unchanged, or with the reserved row.
abbrev Tried : InsertSyncOperationParams → TxState → Option SyncOperation → TxState → Type 0
Tried params s none t = t.db ≡ s.db
Tried params s (some row) t =
    (t.db ≡ with_reservation params s.db)
    × (exists_row (of_key params.device_id params.op_id) s.db.sync_ops ≡ false)

try_insert-Ends :
    (params : InsertSyncOperationParams) (s : TxState)
    → Ends Anyhow (Tried params s) (try_insert_sync_operation params s)
unfolding try_insert_sync_operation
try_insert-Ends params s = ground arith

module _ (codec : Codec) (now : Time) (identity : Identity) (o : Operation) where
  abbrev pub Replayed : Database → OperationResult → Type 0
  Replayed db result =
      (stored : SyncOperation) × (get_sync_operation_sql identity.user_id identity.device_id o.op_id
          db
        ≡ some stored)
      × (replay_stored_operation codec now identity o.op_id stored ≡ ok result)

  -- A fresh run: its key was free, and is reserved before the steps of `process_fresh`.
  abbrev pub Performed : Database → OperationResult → Database → Type 0
  Performed db result db' =
      (key_taken identity o.op_id db ≡ false)
      × (s : TxState) × (u : TxState) × (s.db ≡ with_reservation (reservation identity o.op_id) db)
      × (u.db ≡ db')
      × Finished codec now identity o s result u

  -- What a committed call has done to `db`.
  abbrev pub Committed : Database → OperationResult → Database → Type 0
  Committed db result db' = ((db' ≡ db) × Replayed db result) ⊎ Performed db result db'

  -- A failed call has left the database as it was.
  abbrev pub Answered : Database → Result OperationResult × Database → Type 0
  Answered db = Commits (Committed db) db

  abbrev Leaves : TxState → OperationResult → TxState → Type 0
  Leaves s result t = Committed s.db result t.db

  stored-Ends :
      (s t : TxState) (stored : SyncOperation) (r : Result OperationResult)
      → replay_stored_operation codec now identity o.op_id stored ≡ r
      → t ≡ s
      → get_sync_operation_sql identity.user_id identity.device_id o.op_id s.db ≡ some stored
      → Ends Anyhow (Leaves s) (r, t)
  stored-Ends s t stored (ok result) e same found = inl (ap (λ v. v.db) same, (stored, found, e))
  stored-Ends s t stored (err _) e same found = tt

  replay-Ends : (s : TxState) → Ends Anyhow (Leaves s) (replay codec now identity o.op_id s)
  unfolding replay get_sync_operation
  replay-Ends s =
      elim (Reads-Split _ s _
        (select_one-Reads (get_sync_operation_sql identity.user_id identity.device_id o.op_id) s)) [
          | inr (e, failed) ↦ rw failed tt
          | inl (stored, read, found) ↦ rw read (stored-Ends s s stored _ refl refl found)
        ]

  fresh-Ends :
      (s t : TxState)
      → t.db ≡ with_reservation (reservation identity o.op_id) s.db
      → key_taken identity o.op_id s.db ≡ false
      → Ends Anyhow (Leaves s) (process_fresh codec now identity o t)
  fresh-Ends s t e free =
      Ends-mono Anyhow (Finished codec now identity o t) (Leaves s)
        (process_fresh codec now identity o t) (process_fresh-Ends codec now identity o t)
        λ result u h. inr (free, t, u, e, refl, h)

  Tried-Ends :
      (s t : TxState) (r : Option SyncOperation)
      → Tried (reservation identity o.op_id) s r t
      → Ends Anyhow (Leaves s) (reserved_or_not codec now identity o r t)
  Tried-Ends s t none h =
      subst
        (λ d.
          Ends Anyhow (λ result u. Committed d result u.db) (replay codec now identity o.op_id t))
        h (replay-Ends t)
  Tried-Ends s t (some row) h = fresh-Ends s t h.0 h.1

  process-Ends : (s : TxState) → Ends Anyhow (Leaves s) (process_operation codec now identity o s)
  unfolding process_operation
  process-Ends s = elim (Bool-cases (o.op_id == 0)) [
    | inl nil ↦ rw nil tt
    | inr id ↦ rw id (
        then-Ends Anyhow (Leaves s) (Tried (reservation identity o.op_id) s)
          (reserved_or_not codec now identity o)
          (try_insert_sync_operation (reservation identity o.op_id) s)
          (try_insert-Ends (reservation identity o.op_id) s) λ r t h. Tried-Ends s t r h)
  ]

  -- A call that fails leaves the database as it was. A call that answers a result has either found its
  -- key, written nothing and replayed the stored result, or found the key free; then it has
  -- reserved the key and stored the outcome with it, and in between a rejected result has written
  -- nothing, and an applied one has made exactly one mutation of the catalog or the ledger and
  -- one change-log entry, whose sequence is the next one and stands in the result.
  pub run_operation-Answered : (db : Database) → Answered db (run_operation codec now identity o db)
  unfolding run_operation with_tx_result
  run_operation-Answered db = elim (Bool-cases (identity.user_id == 0 || identity.device_id == 0)) [
    | inl nobody ↦ rw nobody refl
    | inr known ↦ rw known (
        commit-Commits Anyhow (Committed db) db (process_operation codec now identity o (begin db))
          (process-Ends (begin db)))
  ]
