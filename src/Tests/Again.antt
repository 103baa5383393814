-- ===== src/Tests/Again.antt =====
-- Repeated operations, and a reused movement identifier, at one receipt of goods.
use stok_sync.Common.{
  List, Option, none, some, Bool, true, false, ◌∷◌, [], ◌≡◌, refl, ap, subst, String,
}
use stok_sync.Common.Int.{pos}
use stok_sync.Common.Text.{trim_space}
use stok_sync.Errors.{ok}
use stok_sync.Db.Types.{Database, SyncOperation}
use stok_sync.Db.SyncOps.{get_sync_operation_sql}
use stok_sync.Sync.Dto.{Operation, OperationResult}
use stok_sync.Sync.Limits.{with_defaults, validate_limits, default_limits}
use stok_sync.Sync.Response.{
  new_sync_response, validate_response, validate_results, validate_result, validate_changes,
}
use stok_sync.Sync.Operations.{apply_operation}
use stok_sync.Sync.Operations.Effect.{Outcome}
use stok_sync.Sync.Operations.Apply.{apply_operation-Outcome}
use stok_sync.Db.Tx.{begin}
use stok_sync.Db.Tx.Ends.{Anyhow, Ends}
use stok_sync.Sync.Process.{run_operation, replay_stored_operation, replay_decoded}
use stok_sync.Sync.Process.Run.{Answered, run_operation-Answered}
use stok_sync.Sync.Process.Replay.{run_operation_replays}
use stok_sync.Sync.Process.Calls.{Call, after_calls}
use stok_sync.Sync.Process.Later.{run_operation_again, RoundTrip, SameOutcome}
use stok_sync.Tests.World.{codec, now, identity, jsonb_text, receive, count, store, applied}
use stok_sync.Tests.Core.{received}

abbrev received_store : Database
received_store = (run_operation codec now identity receive store).1

receives : run_operation codec now identity receive store ≡ (ok applied, received_store)
receives = ap (λ r. (r, received_store)) received

text_of : {s t : String} → Option.some s ≡ some t → s ≡ t
text_of {s} e = ap (λ o. elim o [ none ↦ s | some x ↦ x ]) e

applied-RoundTrip : RoundTrip codec jsonb_text applied
unfolding trim_space
applied-RoundTrip response e =
    subst
      (λ x.
        (stok_sync.Common.Text.str_eq (trim_space (jsonb_text x)) "" ≡ false)
        × (codec.decode_result (jsonb_text x) ≡ some applied))
      (text_of e) (refl, refl)

applied_fits : replay_decoded codec now 41 (some applied) ≡ ok applied
unfolding new_sync_response validate_response validate_results validate_result validate_changes
    with_defaults validate_limits default_limits trim_space
applied_fits = refl

-- Another operation under the same key.
abbrev same_key : Operation
same_key = record count { op_id = 41 }

-- Another device of the account counts before the retry.
abbrev in_between : List Call
in_between =
    record { at = pos 1001; caller = record identity { device_id = 4 }; operation = count } ∷ []

run_operation_again_example :
    (again : OperationResult) × SameOutcome jsonb_text applied again
    × (run_operation codec
          (pos 1002)
          identity
          same_key
          (after_calls codec in_between received_store)
        ≡ (ok again, after_calls codec in_between received_store))
run_operation_again_example =
    run_operation_again codec now identity receive same_key (pos 1002) in_between store
      received_store applied refl refl refl applied-RoundTrip applied_fits receives

abbrev stored : SyncOperation
stored = record {
  device_id = 3;
  op_id = 41;
  user_id = 7;
  status = "applied";
  reason = none;
  response = "{applied}";
  received_at = pos 950;
  completed_at = some (pos 1000);
}

abbrev answered_store : Database
answered_store = record store { sync_ops = stored ∷ [] }

stored_fits : replay_stored_operation codec now identity 41 stored ≡ ok applied
unfolding replay_stored_operation new_sync_response validate_response validate_results
    validate_result validate_changes with_defaults validate_limits default_limits trim_space
stored_fits = refl

stored_found : get_sync_operation_sql 7 3 41 answered_store ≡ some stored
unfolding get_sync_operation_sql
stored_found = refl

run_operation_replays_example :
    run_operation codec now identity same_key answered_store ≡ (ok applied, answered_store)
run_operation_replays_example =
    run_operation_replays codec now identity same_key answered_store stored applied refl refl
      stored_found stored_fits

run_operation-Answered_example :
    Answered codec now identity receive store (run_operation codec now identity receive store)
run_operation-Answered_example = run_operation-Answered codec now identity receive store

apply_operation-Outcome_example :
    Ends Anyhow (Outcome (begin store)) (apply_operation codec identity receive (begin store))
apply_operation-Outcome_example = apply_operation-Outcome codec identity receive (begin store)
