-- ===== src/Sync/Handler.antt =====
-- The exchange of server/internal/sync/handler.go: the checks, the operations, the page of changes
-- and the answer. Logging is left out.
pub mod Exchange
use stok_sync.Common.{
  Option, none, some, Bool, true, false, not, ◌||◌, List, [], ◌∷◌, String, if◌then◌else◌, ◌==◌, leb,
  ℕ, suc, zero,
}
use stok_sync.Common.Int.{ℤ, pos}
use stok_sync.Errors.{Uuid, Time, SyncError, Error, sync_error, Result, ok, err}
use stok_sync.Db.Types.{Database, Device}
use stok_sync.Sync.Dto.{Codec, Operation, OperationResult, SyncRequest}
use stok_sync.Sync.Limits.{
  ErrorKind, Invalid, Checked, valid, rejected, Limits, default_limits, with_defaults,
  validate_limits,
}
use stok_sync.Sync.Operations.{Identity}
use stok_sync.Sync.Process.{run_operation}
use stok_sync.Sync.Response.{new_sync_response}
use stok_sync.Sync.Request.{
  Body, ErrorResponse, decode_request, encode_response, error_response_for,
}
use stok_sync.Sync.Feed.{ChangeFeed, validate_device, list_changes}

-- The error that an answer is written for.
pub data ExchangeError : Type 0 where
  invalid : Invalid → ExchangeError
  service : Error → ExchangeError
  request_device_mismatch encoding : ExchangeError

pub data Reply : Type 0 where
  failure : ℕ → ErrorResponse → Reply
  success : String → Reply

abbrev in_request : ExchangeError → Option Invalid
in_request (invalid e) = some e
in_request _ = none

abbrev is_mismatch : ExchangeError → Bool
is_mismatch (service (sync_error SyncError.invalid_identity)) = true
is_mismatch request_device_mismatch = true
is_mismatch _ = false

abbrev is_unregistered : ExchangeError → Bool
is_unregistered (service (sync_error SyncError.device_not_registered)) = true
is_unregistered _ = false

abbrev with_code : ErrorResponse → String → ErrorResponse
with_code response code = record response { error = code }

unfoldable pub write_sync_error : ℕ → ExchangeError → Reply
unfolding error_response_for
write_sync_error status e =
    let response = error_response_for (in_request e) in
    failure status (
      if status == 401
      then with_code response "unauthorized"
      else if is_mismatch e
      then with_code response "device_mismatch"
      else if is_unregistered e
      then with_code response "device_not_registered"
      else if leb 500 status
      then with_code response "internal_error"
      else response)

abbrev pub request_status : Invalid → ℕ
request_status (Invalid.limit ErrorKind.request_too_large most actual) = 413
request_status (Invalid.validation ErrorKind.request_too_large field reason) = 413
request_status _ = 400

unfoldable pub write_sync_request_error : Invalid → Reply
unfolding write_sync_error
write_sync_request_error e = write_sync_error (request_status e) (invalid e)

abbrev pub device_status : Error → ℕ
device_status (sync_error SyncError.device_not_registered) = 403
device_status (sync_error SyncError.invalid_identity) = 403
device_status _ = 500

unfoldable pub write_device_validation_error : Error → Reply
unfolding write_sync_error
write_device_validation_error e = write_sync_error (device_status e) (service e)

-- `newHandler`'s choice: an invalid configuration is ignored.
unfoldable pub handler_limits : List Limits → Limits
unfolding default_limits with_defaults validate_limits
handler_limits [] = default_limits
handler_limits (configured ∷ rest) = elim (validate_limits (with_defaults configured)) [
  | valid _ ↦ with_defaults configured
  | rejected _ ↦ default_limits
]

abbrev pub internal_rejection : Operation → OperationResult
internal_rejection o = record {
  op_id = o.op_id;
  status = "rejected";
  seq = none;
  reason = "internal_error";
  server_state = "";
  stocktake_outcome = none;
}

-- An error, or a result for another operation, becomes a rejection.
abbrev pub result_of : Operation → Result OperationResult → OperationResult
result_of o (err e) = internal_rejection o
result_of o (ok r) = if not (r.op_id == o.op_id) || r.op_id == 0 then internal_rejection o else r

-- `meanwhile n` is what other sessions commit, and the time that passes, before the transaction `n`.
module _ (codec : Codec) (now : ℕ → Time) (meanwhile : ℕ → Database → Database) where
  unfoldable pub run_operations :
      Identity → ℕ → List Operation → Database → List OperationResult × Database
  run_operations identity n [] db = ([], db)
  run_operations identity n (o ∷ os) db =
      let (r, db') = run_operation codec (now n) identity o (meanwhile n db) in
      let (rs, db'') = run_operations identity (suc n) os db' in (result_of o r ∷ rs, db'')

  abbrev pub encoded : Checked (Option String) → Reply
  encoded (rejected e) = write_sync_error 500 (invalid e)
  encoded (valid none) = write_sync_error 500 encoding
  encoded (valid (some text)) = success text

  abbrev pub answered :
      Limits → List OperationResult → Result ChangeFeed × Database → Reply × Database
  answered limits results (err e, db) = (write_sync_error 500 (service e), db)
  answered limits results (ok feed, db) = (
    encoded (
        encode_response codec
          (new_sync_response results feed.changes feed.next_cursor feed.has_more (now 0))
          (limits ∷ [])),
    db,
  )

  abbrev pub exchange_changes :
      Limits → Identity → SyncRequest → List OperationResult × Database → Reply × Database
  exchange_changes limits identity r (results, db) =
      answered limits results
        (list_changes identity.user_id r.cursor r.max_changes (meanwhile 1 db))

  -- An accepted request has its array.
  abbrev pub ops_of : Option (List Operation) → List Operation
  ops_of none = []
  ops_of (some ops) = ops

  abbrev pub exchange_operations :
      Limits → Identity → SyncRequest → Result Device × Database → Reply × Database
  exchange_operations limits identity r (err e, db) = (write_device_validation_error e, db)
  exchange_operations limits identity r (ok device, db) =
      exchange_changes limits identity r (run_operations identity 2 (ops_of r.ops) db)

  abbrev pub exchange_decoded :
      Limits → Identity → Checked SyncRequest → Database → Reply × Database
  exchange_decoded limits identity (rejected e) db = (write_sync_request_error e, db)
  exchange_decoded limits identity (valid r) db =
      if not (r.device_id == identity.device_id)
      then (write_sync_error 403 request_device_mismatch, db)
      else exchange_operations limits identity r (validate_device identity.user_id r.device_id db)

  -- The handler has its service. The identity is `none` where the context has none, or one with a nil
  -- part.
  unfoldable pub post : Limits → Option Identity → Body → Database → Reply × Database
  unfolding decode_request write_sync_request_error write_sync_error validate_device run_operations
      list_changes encode_response new_sync_response write_device_validation_error
  post limits none body db =
      (write_sync_error 401 (service (sync_error SyncError.invalid_identity)), db)
  post limits (some identity) body db =
      exchange_decoded limits identity (decode_request codec (limits ∷ []) body) db
