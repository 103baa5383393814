-- ===== src/Sync/Request.antt =====
-- Requests, encoded responses and error answers (server/internal/sync/dto.go).
pub mod Accepted
use Prim.Native.String.{len}
use stok_sync.Common.{
  Option, none, some, Bool, not, List, [], ◌∷◌, String, if◌then◌else◌, ◌==◌, ◌+◌, ℕ,
}
use stok_sync.Common.Int.{ℤ, pos, ◌+ℤ◌, ltb_ℤ, leb_ℤ, eq_ℤ}
use stok_sync.Common.Lists.{length}
use stok_sync.Errors.{zero_time}
use stok_sync.Sync.Dto.{Codec, Operation, SyncRequest, SyncResponse}
use stok_sync.Sync.Limits.{
  ErrorKind, Invalid, Checked, valid, rejected, check, then_check, Limits, with_defaults,
  validate_limits, configured_limits,
}
use stok_sync.Sync.Validate.{validate_operation}
use stok_sync.Sync.Response.{schema_version, validate_response}

-- What `io.ReadAll` gives of the body: no reader, an error, or a text.
pub data Body : Type 0 where
  no_reader unreadable : Body
  text : String → Body

abbrev bad : String → String → Invalid
bad field reason = Invalid.validation ErrorKind.invalid_request field reason

module _ (codec : Codec) where
  -- The wrapping with the operation's index is left out.
  unfoldable pub validate_operations : Limits → List Operation → Checked (Unit {0})
  unfolding validate_operation
  validate_operations limits [] = valid tt
  validate_operations limits (o ∷ os) =
      then_check (validate_operation codec limits o) (validate_operations limits os)

  -- `ops` is `none` where the array is nil.
  abbrev pub validate_ops : Limits → Option (List Operation) → Checked (Unit {0})
  validate_ops limits none =
      rejected (bad "ops" "is required; use an empty array when there is no push work")
  validate_ops limits (some ops) =
      check (ltb_ℤ limits.max_operations (pos (length ops)))
        (Invalid.limit ErrorKind.too_many_operations limits.max_operations (pos (length ops)))
        (validate_operations limits ops)

  abbrev pub validate_fields : Limits → SyncRequest → Checked (Unit {0})
  validate_fields limits r =
      check (not (eq_ℤ r.schema_version schema_version))
        (Invalid.unsupported_schema r.schema_version schema_version)
        (check (r.device_id == 0) (bad "device_id" "is required") (
          check (ltb_ℤ r.cursor (pos 0)) (bad "cursor" "must not be negative") (
            check (leb_ℤ r.max_changes (pos 0)) (bad "max_changes" "must be greater than zero") (
              check (ltb_ℤ limits.max_changes r.max_changes)
                (Invalid.limit ErrorKind.max_changes_exceeded limits.max_changes r.max_changes)
                (check (eq_ℤ r.client_time zero_time)
                  (bad "client_time" "is required and must be RFC3339")
                  (validate_ops limits r.ops))))))

  -- `ValidateWithLimits` of a request.
  unfoldable pub validate_request : Limits → SyncRequest → Checked (Unit {0})
  unfolding with_defaults validate_limits validate_operations
  validate_request configured r =
      then_check (validate_limits (with_defaults configured))
        (validate_fields (with_defaults configured) r)

  abbrev pub validated : Limits → SyncRequest → Checked (Unit {0}) → Checked SyncRequest
  validated limits r (valid _) = valid r
  validated limits r (rejected e) = rejected e

  abbrev pub decoded : Limits → String → Option SyncRequest → Checked SyncRequest
  decoded limits raw none = rejected (bad "body" "must contain one valid JSON object")
  decoded limits raw (some r) =
      if not (codec.ends_after_value raw)
      then rejected (bad "body" "must contain exactly one JSON value")
      else validated limits r (validate_request limits r)

  -- The reader is limited to one byte more than the bound, so that a longer body is seen as that long.
  abbrev pub read_body : Limits → Body → Checked SyncRequest
  read_body limits no_reader = rejected (bad "body" "is required")
  read_body limits unreadable = rejected (bad "body" "could not be read")
  read_body limits (text raw) =
      if ltb_ℤ limits.max_request_bytes (pos (len raw))
      then rejected (
          Invalid.limit ErrorKind.request_too_large limits.max_request_bytes
            (limits.max_request_bytes +ℤ pos 1))
      else decoded limits raw (codec.decode_request raw)

  abbrev pub with_limits : {A : Type 0} → Checked Limits → (Limits → Checked A) → Checked A
  with_limits (rejected e) f = rejected e
  with_limits (valid limits) f = f limits

  unfoldable pub decode_request : List Limits → Body → Checked SyncRequest
  unfolding configured_limits validate_request
  decode_request configured body =
      with_limits (configured_limits configured) (λ limits. read_body limits body)

  -- The encoder's own error is `none`.
  abbrev encoded : SyncResponse → Checked (Unit {0}) → Checked (Option String)
  encoded r (rejected e) = rejected e
  encoded r (valid _) = valid (codec.encode_response r)

  unfoldable pub encode_response : SyncResponse → List Limits → Checked (Option String)
  unfolding configured_limits validate_response
  encode_response r configured =
      with_limits (configured_limits configured)
        (λ limits. encoded r (validate_response codec limits r))

-- 0 is an omitted `min_supported_version`.
pub record ErrorResponse : Type 0 where
  pub schema_version : ℤ
  pub error : String
  pub min_supported_version : ℤ

unfoldable pub error_response_for : Option Invalid → ErrorResponse
error_response_for (some (Invalid.unsupported_schema received least)) = record {
  schema_version = schema_version;
  error = "unsupported_schema_version";
  min_supported_version = least;
}
error_response_for _ = record {
  schema_version = schema_version;
  error = "invalid_request";
  min_supported_version = pos 0;
}
