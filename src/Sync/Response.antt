-- ===== src/Sync/Response.antt =====
-- The construction and validation of a response (server/internal/sync/dto.go).
use stok_sync.Common.{
  Option, none, some, Bool, not, ◌&&◌, ◌||◌, List, [], ◌∷◌, String, is_some, any_some,
  if◌then◌else◌, ◌==◌,
}
use stok_sync.Common.Int.{ℤ, pos, ltb_ℤ, leb_ℤ, eq_ℤ}
use stok_sync.Common.Text.{str_eq, trim_space}
use stok_sync.Common.Lists.{length}
use stok_sync.Errors.{Time, zero_time}
use stok_sync.Sync.Dto.{OperationResult, ChangeEntry, SyncResponse, Codec}
use stok_sync.Sync.Limits.{
  ErrorKind, Invalid, Checked, valid, rejected, check, then_check, Limits, with_defaults,
  validate_limits,
}
use stok_sync.Sync.Validate.{is_json_object}

abbrev pub schema_version : ℤ
schema_version = pos 1

unfoldable pub new_sync_response :
    List OperationResult → List ChangeEntry → ℤ → Bool → Time → SyncResponse
new_sync_response results changes next_cursor has_more server_time = record {
  schema_version = schema_version;
  results = results;
  changes = changes;
  next_cursor = next_cursor;
  has_more = has_more;
  server_time = server_time;
}

-- The field's text leaves the index out.
abbrev bad : String → String → Invalid
bad field reason = Invalid.validation ErrorKind.invalid_response field reason

abbrev blank : String → Bool
blank s = str_eq (trim_space s) ""

module _ (codec : Codec) where
  abbrev applied_fields : OperationResult → Checked (Unit {0})
  applied_fields r =
      check (not (is_some r.seq) || any_some (λ q. leb_ℤ q (pos 0)) r.seq)
        (bad "results.seq" "is required and must be positive for applied results")
        (check (not (str_eq r.reason "") || not (blank r.server_state))
          (bad "results" "applied results cannot contain rejection fields") (valid tt))

  abbrev rejected_fields : OperationResult → Checked (Unit {0})
  rejected_fields r =
      check (blank r.reason) (bad "results.reason" "is required for rejected results") (
        check (is_some r.seq) (bad "results.seq" "must be omitted for rejected results") (
          check
            (not (blank r.server_state) && not (is_json_object codec (trim_space r.server_state)))
            (bad "results.server_state" "must be a JSON object") (valid tt)))

  unfoldable pub validate_result : OperationResult → Checked (Unit {0})
  unfolding trim_space
  validate_result r = check (r.op_id == 0) (bad "results.op_id" "is required") (
      if str_eq r.status "applied"
      then applied_fields r
      else if str_eq r.status "rejected"
      then rejected_fields r
      else rejected (bad "results.status" "must be applied or rejected"))

  unfoldable pub validate_results : List OperationResult → Checked (Unit {0})
  unfolding validate_result
  validate_results [] = valid tt
  validate_results (r ∷ rs) = then_check (validate_result r) (validate_results rs)

  -- The index is positive exactly where there is a previous sequence.
  abbrev not_ascending : Option ℤ → ℤ → Bool
  not_ascending previous seq = any_some (λ p. leb_ℤ seq p) previous

  unfoldable pub validate_change : Option ℤ → ChangeEntry → Checked (Unit {0})
  unfolding trim_space is_json_object
  validate_change previous c = check (leb_ℤ c.seq (pos 0)) (bad "changes.seq" "must be positive") (
      check (not_ascending previous c.seq) (bad "changes.seq" "must be strictly ascending") (
        check (blank c.entity || blank c.op) (bad "changes" "entity and op are required") (
          check (not (is_json_object codec (trim_space c.payload)))
            (bad "changes.data" "must be a JSON object")
            (check (any_some (λ t. eq_ℤ t zero_time) c.created_at)
              (bad "changes.created_at" "must be RFC3339 when provided") (valid tt)))))

  -- The loop over the changes ends with the check of the cursor against the last sequence.
  unfoldable pub validate_changes : ℤ → Option ℤ → List ChangeEntry → Checked (Unit {0})
  unfolding validate_change
  validate_changes next_cursor previous [] =
      check (any_some (λ p. ltb_ℤ next_cursor p) previous)
        (bad "next_cursor" "must not precede the last returned change") (valid tt)
  validate_changes next_cursor previous (c ∷ cs) =
      then_check (validate_change previous c) (validate_changes next_cursor (some c.seq) cs)

  abbrev within_limits : Limits → SyncResponse → Checked (Unit {0})
  within_limits limits r =
      check (not (eq_ℤ r.schema_version schema_version))
        (Invalid.unsupported_schema r.schema_version schema_version)
        (check (ltb_ℤ r.next_cursor (pos 0)) (bad "next_cursor" "must not be negative") (
          check (eq_ℤ r.server_time zero_time) (bad "server_time" "is required and must be RFC3339")
            (check (ltb_ℤ limits.max_operations (pos (length r.results)))
              (Invalid.limit ErrorKind.too_many_operations limits.max_operations
                (pos (length r.results)))
              (check (ltb_ℤ limits.max_changes (pos (length r.changes)))
                (Invalid.limit ErrorKind.too_many_changes limits.max_changes
                  (pos (length r.changes)))
                (then_check (validate_results r.results)
                  (validate_changes r.next_cursor none r.changes))))))

  -- `ValidateWithLimits` of a response.
  unfoldable pub validate_response : Limits → SyncResponse → Checked (Unit {0})
  unfolding with_defaults validate_limits validate_results validate_changes
  validate_response configured r =
      then_check (validate_limits (with_defaults configured))
        (within_limits (with_defaults configured) r)
