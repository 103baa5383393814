-- ===== src/Sync/Process/Calls.antt =====
-- Any number of calls of `ProcessOperation` (server/internal/sync/service.go), and the stored outcomes
-- that they leave alone.
use stok_sync.Common.{
  some, Bool, true, false, ◌&&◌, List, [], ◌∷◌, ◌≡◌, refl, ap, ◌∙◌, sym, arith, ◌==◌, inl, inr,
  Bool-cases,
}
use stok_sync.Common.Lists.{exists_row, find, update_rows}
use stok_sync.Errors.{Uuid, Time, Result, ok, err}
use stok_sync.Db.Types.{Database, SyncOperation, UpdateSyncOperationParams}
use stok_sync.Db.Tx.{TxState}
use stok_sync.Db.SyncOps.{of_key, get_sync_operation_sql, reserved, finalized, update_key}
use stok_sync.Consistency.Step.{step-SameLog, DomainStep}
use stok_sync.Sync.Dto.{Codec, Operation, OperationResult}
use stok_sync.Sync.Operations.{Identity}
use stok_sync.Sync.Process.{run_operation, reservation, outcome_params}
use stok_sync.Sync.Process.Fresh.{Recorded}
use stok_sync.Sync.Process.Replay.{stored_of, stored-exists_row}
use stok_sync.Sync.Process.Run.{Answered, Performed, key_taken, run_operation-Answered}

-- A call of `ProcessOperation` by any session.
pub record Call : Type 0 where
  pub at : Time
  pub caller : Identity
  pub operation : Operation

-- The database after the calls, in their order.
abbrev pub after_calls : Codec → List Call → Database → Database
after_calls codec [] db = db
after_calls codec (c ∷ cs) db =
    after_calls codec cs (run_operation codec c.at c.caller c.operation db).1

abbrev pub row_of : Uuid → Uuid → Uuid → SyncOperation → Bool
row_of user device op s = s.user_id == user && of_key device op s

step-jsonb : {db db' : Database} → DomainStep db db' → db'.jsonb ≡ db.jsonb
step-jsonb (DomainStep.moved db input active) = refl
step-jsonb (DomainStep.added db input new) = refl
step-jsonb (DomainStep.edited db input old found) = refl
step-jsonb (DomainStep.deleted db input old found) = refl

-- The key of the call is not that of the stored row.
abbrev other_key : Identity → Uuid → Identity → Uuid → Bool
other_key caller op identity op_id = caller.device_id == identity.device_id && op == op_id

other_key-lem :
    (caller identity : Identity) (op op_id : Uuid) (db : Database) (stored : SyncOperation)
    → stored_of identity op_id db ≡ some stored
    → key_taken caller op db ≡ false
    → other_key caller op identity op_id ≡ false
other_key-lem caller identity op op_id db stored found free =
    elim (Bool-cases (other_key caller op identity op_id)) [
      | inr other ↦ other
      | inl same ↦ absurd (clash (renamed (parts same)))
    ]
  where
    clash : exists_row (of_key identity.device_id op_id) db.sync_ops ≡ false → ⊥
    clash h = true-false (sym (stored-exists_row identity op_id db stored found) ∙ h)
      where
        true-false : true ≡ false → ⊥
        true-false h = cc

    parts :
        other_key caller op identity op_id ≡ true
        → (caller.device_id ≡ identity.device_id) × (op ≡ op_id)
    parts h = (ground arith, ground arith)

    renamed :
        (caller.device_id ≡ identity.device_id) × (op ≡ op_id)
        → exists_row (of_key identity.device_id op_id) db.sync_ops ≡ false
    renamed (device, op_same) = rw (sym device, sym op_same) free

kept_rows :
    (user device op : Uuid) (params : UpdateSyncOperationParams) (d : Database)
    (xs : List SyncOperation)
    → (params.device_id == device && params.op_id == op) ≡ false
    → find (row_of user device op) (update_rows (update_key params) (finalized params d) xs)
      ≡ find (row_of user device op) xs
kept_rows user device op params d [] other = refl
kept_rows user device op params d (x ∷ xs) other = elim (Bool-cases (update_key params x)) [
  | inl hit ↦ ground (arith, kept_rows user device op params d xs other)
  | inr miss ↦ ground (arith, kept_rows user device op params d xs other)
]

pub Recorded-rows :
    (identity : Identity) (s : TxState) (result : OperationResult) (d : Database)
    → Recorded identity s result d
    → (d.sync_ops ≡ s.db.sync_ops) × (d.jsonb ≡ s.db.jsonb)
Recorded-rows identity s result d (inl (same, rejected, unnumbered)) =
    (ap (λ v. v.sync_ops) same, ap (λ v. v.jsonb) same)
Recorded-rows identity s result d (inr (mid, change, step, e, applied, seq)) =
    (ap (λ v. v.sync_ops) e ∙ (step-SameLog step).2, ap (λ v. v.jsonb) e ∙ step-jsonb step)

module _ (codec : Codec) where
  module _ (identity : Identity) (op_id : Uuid) (stored : SyncOperation) where
    Performed-stored :
        (now : Time) (caller : Identity) (o : Operation) (db db' : Database)
        (result : OperationResult)
        → stored_of identity op_id db ≡ some stored
        → Performed codec now caller o db result db'
        → stored_of identity op_id db' ≡ some stored
    unfolding get_sync_operation_sql
    Performed-stored now caller o db db' result found
          (free, s, u, start, end, (d, response, rec, marshalled, done)) =
        let params = outcome_params caller o.op_id result response now in
        let other = other_key-lem caller identity o.op_id op_id db stored found free in
        let rows : d.sync_ops ≡ reserved (reservation caller o.op_id) db ∷ db.sync_ops =
          (Recorded-rows caller s result d rec).0 ∙ ap (λ v. v.sync_ops) start in
        ap (stored_of identity op_id) (sym end ∙ done)
        ∙ kept_rows identity.user_id identity.device_id op_id params d d.sync_ops other
        ∙ rw (rows, other) (ground arith)

    Answered-stored :
        (now : Time) (caller : Identity) (o : Operation) (db : Database)
        (r : Result OperationResult × Database)
        → Answered codec now caller o db r
        → stored_of identity op_id db ≡ some stored
        → stored_of identity op_id r.1 ≡ some stored
    Answered-stored now caller o db (err e, db') same found =
        ap (stored_of identity op_id) same ∙ found
    Answered-stored now caller o db (ok result, db') (inl (same, replayed)) found =
        ap (stored_of identity op_id) same ∙ found
    Answered-stored now caller o db (ok result, db') (inr performed) found =
        Performed-stored now caller o db db' result found performed

    -- A stored row stays as it is through any calls.
    pub calls-stored :
        (calls : List Call) (db : Database)
        → stored_of identity op_id db ≡ some stored
        → stored_of identity op_id (after_calls codec calls db) ≡ some stored
    calls-stored [] db found = found
    calls-stored (c ∷ cs) db found =
        calls-stored cs (run_operation codec c.at c.caller c.operation db).1 (
          Answered-stored c.at c.caller c.operation db
            (run_operation codec c.at c.caller c.operation db)
            (run_operation-Answered codec c.at c.caller c.operation db) found)
