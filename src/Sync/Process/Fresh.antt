-- ===== src/Sync/Process/Fresh.antt =====
-- What a processed operation has written: its idempotency row, and for an applied one a domain
-- mutation and the next entry of the change log.
use stok_sync.Common.{
  none, some, [], ◌∷◌, ◌++◌, ◌≡◌, ap, arith, String, Option-cases, inl, inr, ◌⊎◌,
}
use stok_sync.Common.Int.{ℤ, pos, ◌+ℤ◌}
use stok_sync.Common.Lists.{update_rows}
use stok_sync.Errors.{Uuid, Time}
use stok_sync.Db.Types.{
  Database, ChangeLogEntry, AppendChangeLogParams, InsertChangeLogParams, UpdateSyncOperationParams,
}
use stok_sync.Db.Tx.{TxState, Tx, pure, ◌>>=◌, and_then}
use stok_sync.Db.Tx.Ends.{Anyhow, Ends, then-Ends}
use stok_sync.Db.ChangeLog.{append_change_log, logged}
use stok_sync.Db.SyncOps.{update_sync_operation, finalized, update_key}
use stok_sync.Consistency.Step.{DomainStep}
use stok_sync.Sync.Dto.{Codec, Operation, OperationResult}
use stok_sync.Sync.Operations.{Identity, Applied, OperationChange, apply_operation}
use stok_sync.Sync.Operations.Effect.{Outcome}
use stok_sync.Sync.Operations.Apply.{apply_operation-Outcome}
use stok_sync.Sync.Process.{
  record_change, change_params, with_seq, finalize_operation, outcome_params, process_fresh,
}

abbrev pub next_seq : Database → ℤ
next_seq db = db.last_seq +ℤ pos 1

abbrev pub numbered : AppendChangeLogParams → ℤ → InsertChangeLogParams
numbered params seq = record {
  seq = seq;
  user_id = params.user_id;
  entity = params.entity;
  entity_id = params.entity_id;
  op = params.op;
  payload = params.payload;
  origin_device_id = params.origin_device_id;
}

abbrev pub next_entry : AppendChangeLogParams → Database → ChangeLogEntry
next_entry params db = logged (numbered params (next_seq db)) db

-- The database after `AppendChangeLog`.
abbrev pub with_entry : AppendChangeLogParams → Database → Database
with_entry params db = record db {
  last_seq = next_seq db;
  change_log = db.change_log ++ next_entry params db ∷ [];
}

abbrev Logs : AppendChangeLogParams → TxState → ChangeLogEntry → TxState → Type 0
Logs params s e t = (e ≡ next_entry params s.db) × (t.db ≡ with_entry params s.db)

append_change_log-Ends :
    (params : AppendChangeLogParams) (s : TxState)
    → Ends Anyhow (Logs params s) (append_change_log params s)
unfolding append_change_log
append_change_log-Ends params s = ground arith

-- The database after the outcome was stored.
abbrev pub with_outcome : UpdateSyncOperationParams → Database → Database
with_outcome params db = record db {
  sync_ops = update_rows (update_key params) (finalized params db) db.sync_ops;
}

update_outcome-Ends :
    (params : UpdateSyncOperationParams) (s : TxState)
    → Ends Anyhow (λ row t. t.db ≡ with_outcome params s.db) (update_sync_operation params s)
unfolding update_sync_operation
update_outcome-Ends params s = ground arith

-- An applied result has the sequence of the entry that its change was logged with.
abbrev pub Recorded : Identity → TxState → OperationResult → Database → Type 0
Recorded identity s result d =
    ((d ≡ s.db) × (result.status ≡ "rejected") × (result.seq ≡ none))
    ⊎ ((mid : Database) × (change : OperationChange) × DomainStep s.db mid
        × (d ≡ with_entry (change_params identity change) mid)
        × (result.status ≡ "applied")
        × (result.seq ≡ some (next_seq mid)))

record_change-Ends :
    (identity : Identity) (s : TxState) (a : Applied) (t : TxState)
    → Outcome s a t
    → Ends Anyhow (λ result u. Recorded identity s result u.db) (record_change identity a t)
unfolding record_change
record_change-Ends identity s (result, none) t h = inl h
record_change-Ends identity s (result, some change) t h =
    then-Ends Anyhow (λ result u. Recorded identity s result u.db)
      (Logs (change_params identity change) t) (λ entry. pure (with_seq result entry.seq))
      (append_change_log (change_params identity change) t)
      (append_change_log-Ends (change_params identity change) t)
      (λ e u k. inr (t.db, change, h.0, k.1, h.1, ap (λ (x : ChangeLogEntry). some x.seq) k.0))

module _ (codec : Codec) (now : Time) where
  abbrev pub Finalized : Identity → Uuid → OperationResult → TxState → Unit {0} → TxState → Type 0
  Finalized identity op_id result s _ u =
      (response : String) × (codec.marshal_result result ≡ some response)
      × (u.db ≡ with_outcome (outcome_params identity op_id result response now) s.db)

  stored-Finalized :
      (identity : Identity) (op_id : Uuid) (result : OperationResult) (response : String)
      (s : TxState)
      → codec.marshal_result result ≡ some response
      → Ends Anyhow (Finalized identity op_id result s) (
          and_then
            (λ _. pure tt)
            (update_sync_operation (outcome_params identity op_id result response now) s))
  stored-Finalized identity op_id result response s e =
      then-Ends Anyhow (Finalized identity op_id result s) _ (λ _. pure tt)
        (update_sync_operation (outcome_params identity op_id result response now) s)
        (update_outcome-Ends (outcome_params identity op_id result response now) s)
        λ row u k. (response, e, k)

  finalize-Ends :
      (identity : Identity) (op_id : Uuid) (result : OperationResult) (s : TxState)
      → Ends Anyhow
          (Finalized identity op_id result s)
          (finalize_operation codec now identity op_id result s)
  unfolding finalize_operation
  finalize-Ends identity op_id result s = elim (Option-cases (codec.marshal_result result)) [
    | inl failed ↦ rw failed tt
    | inr (response, e) ↦ rw e (stored-Finalized identity op_id result response s e)
  ]

  -- The steps from the reserved key to the stored outcome.
  abbrev pub Finished : Identity → Operation → TxState → OperationResult → TxState → Type 0
  Finished identity o s result u =
      (d : Database) × (response : String) × Recorded identity s result d
      × (codec.marshal_result result ≡ some response)
      × (u.db ≡ with_outcome (outcome_params identity o.op_id result response now) d)

  abbrev finish : Identity → Operation → OperationResult → Tx OperationResult
  finish identity o result =
      finalize_operation codec now identity o.op_id result >>= λ _. pure result

  finish-Ends :
      (identity : Identity) (o : Operation) (s : TxState) (result : OperationResult) (t : TxState)
      → Recorded identity s result t.db
      → Ends Anyhow (Finished identity o s) (finish identity o result t)
  finish-Ends identity o s result t h =
      then-Ends Anyhow (Finished identity o s) (Finalized identity o.op_id result t)
        (λ _. pure result) (finalize_operation codec now identity o.op_id result t)
        (finalize-Ends identity o.op_id result t) λ _ u (response, e, k). (t.db, response, h, e, k)

  recorded-Ends :
      (identity : Identity) (o : Operation) (s : TxState) (a : Applied) (t : TxState)
      → Outcome s a t
      → Ends Anyhow
          (Finished identity o s)
          (and_then (finish identity o) (record_change identity a t))
  recorded-Ends identity o s a t h =
      then-Ends Anyhow (Finished identity o s) (λ result u. Recorded identity s result u.db)
        (finish identity o) (record_change identity a t) (record_change-Ends identity s a t h)
        λ result u k. finish-Ends identity o s result u k

  pub process_fresh-Ends :
      (identity : Identity) (o : Operation) (s : TxState)
      → Ends Anyhow (Finished identity o s) (process_fresh codec now identity o s)
  unfolding process_fresh
  process_fresh-Ends identity o s =
      then-Ends Anyhow (Finished identity o s) (Outcome s)
        (λ a. record_change identity a >>= finish identity o) (apply_operation codec identity o s)
        (apply_operation-Outcome codec identity o s) λ a t h. recorded-Ends identity o s a t h
