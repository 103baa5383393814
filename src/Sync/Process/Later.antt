-- ===== src/Sync/Process/Later.antt =====
-- A retry of `ProcessOperation` after any number of other calls, with the JSONB text of the stored
-- outcome (server/internal/sync/operations.go).
use stok_sync.Common.{
  some, false, ◌||◌, List, ◌∷◌, ◌≡◌, refl, ap, ◌∙◌, sym, subst, ◌==◌, inl, inr, ◌⊎◌, ==_refl,
  String, Bool-cases, if◌then◌else◌,
}
use stok_sync.Common.Lists.{find, update_rows}
use stok_sync.Common.Text.{str_eq, str_eq_lem, trim_space}
use stok_sync.Errors.{Uuid, Time, ok}
use stok_sync.Db.Types.{Database, SyncOperation}
use stok_sync.Db.SyncOps.{get_sync_operation_sql, reserved, finalized, update_key}
use stok_sync.Sync.Dto.{Codec, Operation, OperationResult}
use stok_sync.Sync.Operations.{Identity}
use stok_sync.Sync.Process.{
  run_operation, replay_stored_operation, replay_decoded, reservation, outcome_params,
}
use stok_sync.Sync.Process.Fresh.{with_outcome}
use stok_sync.Sync.Process.Calls.{Call, after_calls, row_of, Recorded-rows, calls-stored}
use stok_sync.Sync.Process.Replay.{stored_of, run_operation_replays}
use stok_sync.Sync.Process.Run.{Answered, Committed, Performed, run_operation-Answered}

-- The result as it is read back from its stored text: its raw JSON has PostgreSQL's text.
abbrev pub read_back : (String → String) → OperationResult → OperationResult
read_back jsonb result = record result {
  server_state = if str_eq result.server_state "" then "" else jsonb result.server_state;
}

-- The same result, where the text of its `server_state` may be PostgreSQL's text of that value.
abbrev pub SameOutcome : (String → String) → OperationResult → OperationResult → Type 0
SameOutcome jsonb result again =
    (again.op_id ≡ result.op_id)
    × (again.status ≡ result.status)
    × (again.seq ≡ result.seq)
    × (again.reason ≡ result.reason)
    × (again.stocktake_outcome ≡ result.stocktake_outcome)
    × ((again.server_state ≡ result.server_state)
        ⊎ (again.server_state ≡ jsonb result.server_state))

read_back-SameOutcome :
    (jsonb : String → String) (result : OperationResult)
    → SameOutcome jsonb result (read_back jsonb result)
read_back-SameOutcome jsonb result = (
  refl,
  refl,
  refl,
  refl,
  refl,
  elim (Bool-cases (str_eq result.server_state "")) [
    | inl blank ↦ inl (rw blank (sym (str_eq_lem result.server_state "" blank)))
    | inr text ↦ inr (rw text refl)
  ],
)

module _ (codec : Codec) where
  -- encoding/json gives a result back from PostgreSQL's text of its text, which is not blank, but
  -- for the text of its raw JSON.
  abbrev pub RoundTrip : (String → String) → OperationResult → Type 0
  RoundTrip jsonb result =
      (response : String)
      → codec.marshal_result result ≡ some response
      → (str_eq (trim_space (jsonb response)) "" ≡ false)
        × (codec.decode_result (jsonb response) ≡ some (read_back jsonb result))

  same_replay :
      (now now' : Time) (identity : Identity) (op_id : Uuid) (stored : SyncOperation)
      → replay_stored_operation codec now identity op_id stored
        ≡ replay_stored_operation codec now' identity op_id stored
  unfolding replay_stored_operation
  same_replay now now' identity op_id stored = refl

  module _ (now : Time) (identity : Identity) where
    -- The row that a fresh run leaves under its key.
    abbrev finished_row : Uuid → Database → Database → OperationResult → String → SyncOperation
    finished_row op_id db d result response =
        finalized (outcome_params identity op_id result response now) d
          (reserved (reservation identity op_id) db)

    found_lem :
        (op_id : Uuid) (db d : Database) (result : OperationResult) (response : String)
        (xs : List SyncOperation)
        → find (row_of identity.user_id identity.device_id op_id) (
            update_rows
              (update_key (outcome_params identity op_id result response now))
              (finalized (outcome_params identity op_id result response now) d)
              (reserved (reservation identity op_id) db ∷ xs))
          ≡ some (finished_row op_id db d result response)
    found_lem op_id db d result response xs =
        rw (==_refl identity.user_id, ==_refl identity.device_id, ==_refl op_id)
          (rw (==_refl identity.user_id, ==_refl identity.device_id, ==_refl op_id) refl)

    stored-finished_row :
        (op_id : Uuid) (db d db' : Database) (result : OperationResult) (response : String)
        → d.sync_ops ≡ reserved (reservation identity op_id) db ∷ db.sync_ops
        → db' ≡ with_outcome (outcome_params identity op_id result response now) d
        → stored_of identity op_id db' ≡ some (finished_row op_id db d result response)
    unfolding get_sync_operation_sql
    stored-finished_row op_id db d db' result response rows e =
        rw (e, rows) (found_lem op_id db d result response db.sync_ops)

    replayed_row :
        (op_id : Uuid) (db d : Database) (result again : OperationResult) (response : String)
        → str_eq (trim_space (d.jsonb response)) "" ≡ false
        → codec.decode_result (d.jsonb response) ≡ some again
        → replay_decoded codec now op_id (some again) ≡ ok again
        → replay_stored_operation codec now identity op_id (finished_row op_id db d result response)
          ≡ ok again
    unfolding replay_stored_operation
    replayed_row op_id db d result again response some_text decoded fits =
        rw (==_refl identity.user_id, ==_refl identity.device_id, ==_refl op_id, some_text, decoded)
          fits

    -- The state has an outcome under the key that is replayed as `again`.
    abbrev Replays : Uuid → OperationResult → Database → Type 0
    Replays op_id again db =
        (stored : SyncOperation) × (stored_of identity op_id db ≡ some stored)
        × (replay_stored_operation codec now identity op_id stored ≡ ok again)

    Performed-Replays :
        (o : Operation) (db db' : Database) (result : OperationResult)
        → RoundTrip db.jsonb result
        → replay_decoded codec now o.op_id (some (read_back db.jsonb result))
          ≡ ok (read_back db.jsonb result)
        → Performed codec now identity o db result db'
        → Replays o.op_id (read_back db.jsonb result) db'
    Performed-Replays o db db' result trip fits
          (free, s, u, start, end, (d, response, rec, marshalled, done)) =
        let (rows, text) = Recorded-rows identity s result d rec in
        let same : d.jsonb ≡ db.jsonb = text ∙ ap (λ v. v.jsonb) start in
        let (some_text, decoded) = trip response marshalled in
        (
          finished_row o.op_id db d result response,
          stored-finished_row o.op_id db d db' result response (rows ∙ ap (λ v. v.sync_ops) start)
              (sym end ∙ done),
          replayed_row o.op_id db d result (read_back db.jsonb result) response
              (ap (λ j. str_eq (trim_space (j response)) "") same ∙ some_text)
              (ap (λ j. codec.decode_result (j response)) same ∙ decoded) fits,
        )

    Committed-Replays :
        (o : Operation) (db db' : Database) (result : OperationResult)
        → RoundTrip db.jsonb result
        → replay_decoded codec now o.op_id (some (read_back db.jsonb result))
          ≡ ok (read_back db.jsonb result)
        → Committed codec now identity o db result db'
        → (again : OperationResult) × SameOutcome db.jsonb result again × Replays o.op_id again db'
    Committed-Replays o db db' result trip fits (inl (same, (stored, found, e))) = (
      result,
      (refl, refl, refl, refl, refl, inl refl),
      (stored, ap (stored_of identity o.op_id) same ∙ found, e),
    )
    Committed-Replays o db db' result trip fits (inr performed) = (
      read_back db.jsonb result,
      read_back-SameOutcome db.jsonb result,
      Performed-Replays o db db' result trip fits performed,
    )

    -- If a call has answered `result`, and encoding/json gives `result` back from PostgreSQL's text
    -- of its text, which is not blank, but for the text of `server_state`, and what it gives passes
    -- the validation of stored results, then after any further calls of `ProcessOperation`, by
    -- whatever sessions, a call with the same key, of whatever operation and at whatever instant,
    -- writes nothing and answers the same result, where the text of `server_state` may be
    -- PostgreSQL's text of the same value.
    pub run_operation_again :
        (o o' : Operation) (now' : Time) (calls : List Call) (db db' : Database)
        (result : OperationResult)
        → (identity.user_id == 0 || identity.device_id == 0) ≡ false
        → (o.op_id == 0) ≡ false
        → o'.op_id ≡ o.op_id
        → RoundTrip db.jsonb result
        → replay_decoded codec now o.op_id (some (read_back db.jsonb result))
          ≡ ok (read_back db.jsonb result)
        → run_operation codec now identity o db ≡ (ok result, db')
        → (again : OperationResult) × SameOutcome db.jsonb result again
          × (run_operation codec now' identity o' (after_calls codec calls db')
              ≡ (ok again, after_calls codec calls db'))
    run_operation_again o o' now' calls db db' result known id same trip fits e =
        let (again, outcome, (stored, found, replayed)) =
          Committed-Replays o db db' result trip fits (
            subst (Answered codec now identity o db) e
              (run_operation-Answered codec now identity o db)) in
        let later = calls-stored codec identity o.op_id stored calls db' found in
        (
          again,
          outcome,
          run_operation_replays codec now' identity o' (after_calls codec calls db') stored again
              known (ap (λ i. i == 0) same ∙ id)
              (ap (λ i. stored_of identity i (after_calls codec calls db')) same ∙ later)
              (ap (λ i. replay_stored_operation codec now' identity i stored) same
                ∙ same_replay now' now identity o.op_id stored
                ∙ replayed),
        )
