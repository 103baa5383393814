-- ===== src/Sync/Validate.antt =====
-- The validation of one operation's envelope and payload (server/internal/sync/dto.go).
use Prim.Native.String.{len}
use stok_sync.Common.{
  Option, none, some, Bool, true, false, not, ◌&&◌, ◌||◌, List, [], ◌∷◌, String, is_some, any_some,
  if◌then◌else◌, ◌==◌, leb,
}
use stok_sync.Common.Int.{pos, ltb_ℤ, leb_ℤ, eq_ℤ}
use stok_sync.Common.Text.{str_eq, trim_space}
use stok_sync.Errors.{Time, zero_time}
use stok_sync.Sync.Dto.{
  Operation, Payload, add_movement, upsert_product, delete_product, AddMovementPayload,
  UpsertProductPayload, DeleteProductPayload, Codec,
}
use stok_sync.Sync.Limits.{
  ErrorKind, Invalid, Checked, valid, rejected, check, Limits, with_defaults, validate_limits,
}

unfoldable pub is_supported_operation : String → Bool
is_supported_operation value =
    str_eq value "add_movement" || str_eq value "upsert_product" || str_eq value "delete_product"

unfoldable pub is_movement_kind : String → Bool
is_movement_kind value =
    str_eq value "receive"
    || str_eq value "issue"
    || str_eq value "adjust"
    || str_eq value "stocktake"

abbrev pub bad : String → String → Invalid
bad field reason = Invalid.validation ErrorKind.invalid_operation field reason

abbrev is_zero : Time → Bool
is_zero t = eq_ℤ t zero_time

-- `raw[0] == '{'` and `raw[len(raw)-1] == '}'`, which no one-byte text meets.
abbrev braced : String → Bool
braced raw =
    stok_sync.Common.Text.starts_with_brace raw && stok_sync.Common.Text.ends_with_brace raw

module _ (codec : Codec) where
  unfoldable pub is_json_object : String → Bool
  is_json_object raw = braced raw && codec.is_object raw

  -- `decodeStrictObject` at each of the three types.
  unfoldable pub decode_strict_object : {A : Type 0} → (String → Option A) → String → Option A
  unfolding trim_space is_json_object
  decode_strict_object decode raw =
      if is_json_object (trim_space raw) then decode (trim_space raw) else none

  abbrev wrapped : {A : Type 0} → (A → Payload) → Option A → Option Payload
  wrapped f none = none
  wrapped f (some a) = some (f a)

  -- `DecodePayload`, where `none` is an error.
  unfoldable pub decode_payload : Operation → Option Payload
  unfolding decode_strict_object
  decode_payload o =
      if str_eq o.op "add_movement"
      then wrapped add_movement (decode_strict_object codec.decode_add_movement o.payload)
      else if str_eq o.op "upsert_product"
      then wrapped upsert_product (decode_strict_object codec.decode_upsert_product o.payload)
      else if str_eq o.op "delete_product"
      then wrapped delete_product (decode_strict_object codec.decode_delete_product o.payload)
      else none

  unfoldable pub validate_movement : Operation → AddMovementPayload → Checked (Unit {0})
  unfolding is_movement_kind
  validate_movement o p =
      check (is_some o.base_version) (bad "base_version" "is only valid for product mutations") (
        check (p.id == 0) (bad "payload.id" "is required") (
          check (p.product_id == 0) (bad "payload.product_id" "is required") (
            check (eq_ℤ p.delta (pos 0)) (bad "payload.delta" "must not be zero") (
              check (not (is_movement_kind p.kind))
                (bad "payload.kind" "is not a supported movement kind")
                (check (is_zero p.occurred_at)
                  (bad "payload.occurred_at" "is required and must be RFC3339")
                  (check (any_some is_zero p.raw_occurred_at)
                    (bad "payload.raw_occurred_at" "must be RFC3339 when provided")
                    (check (any_some (λ d. d == 0) p.device_id)
                      (bad "payload.device_id" "must be a UUID when provided")
                      (check (any_some (λ d. d == 0) p.reverses_id)
                        (bad "payload.reverses_id" "must be a UUID when provided")
                        (check (is_some p.reverses_id && not (str_eq p.kind "adjust"))
                          (bad "payload.reverses_id" "is only valid for adjust movements")
                          (check
                            (str_eq p.kind "stocktake"
                              && (not (is_some p.counted_qty)
                                  || any_some (λ n. ltb_ℤ n (pos 0)) p.counted_qty))
                            (bad "payload.counted_qty"
                              "is required and must not be negative for stocktake")
                            (check (not (str_eq p.kind "stocktake") && is_some p.counted_qty)
                              (bad "payload.counted_qty" "is only valid for stocktake")
                              (valid tt))))))))))))

  unfoldable pub validate_upsert : UpsertProductPayload → Checked (Unit {0})
  unfolding trim_space
  validate_upsert p = check (p.id == 0) (bad "payload.id" "is required") (
      check (str_eq (trim_space p.name) "") (bad "payload.name" "is required") (
        check (any_some (λ n. ltb_ℤ n (pos 0)) p.min_stock)
          (bad "payload.min_stock" "must not be negative") (valid tt)))

  unfoldable pub validate_delete : Operation → DeleteProductPayload → Checked (Unit {0})
  validate_delete o p =
      check (not (is_some o.base_version) || any_some (λ v. leb_ℤ v (pos 0)) o.base_version)
        (bad "base_version" "is required and must be positive for product deletion")
        (check (p.id == 0) (bad "payload.id" "is required") (
          check (any_some is_zero p.deleted_at)
            (bad "payload.deleted_at" "must be RFC3339 when provided") (valid tt)))

  abbrev validate_payload : Operation → Option Payload → Checked (Unit {0})
  validate_payload o none = rejected (bad "payload" "contains an unknown field or invalid value")
  validate_payload o (some (add_movement p)) = validate_movement o p
  validate_payload o (some (upsert_product p)) = validate_upsert p
  validate_payload o (some (delete_product p)) = validate_delete o p

  abbrev validate_envelope : Limits → Operation → Checked (Unit {0})
  validate_envelope limits o = check (o.op_id == 0) (bad "op_id" "is required") (
      check (not (is_supported_operation o.op)) (bad "op" "is not a supported operation") (
        check (any_some (λ v. ltb_ℤ v (pos 0)) o.base_version)
          (bad "base_version" "must not be negative")
          (check (str_eq (trim_space o.payload) "") (bad "payload" "is required") (
            check (ltb_ℤ limits.max_operation_payload_bytes (pos (len (trim_space o.payload))))
              (Invalid.limit ErrorKind.request_too_large limits.max_operation_payload_bytes
                (pos (len (trim_space o.payload))))
              (check (not (is_json_object (trim_space o.payload)))
                (bad "payload" "must be a JSON object") (validate_payload o (decode_payload o)))))))

  -- `ValidateWithLimits` of an operation.
  unfoldable pub validate_operation : Limits → Operation → Checked (Unit {0})
  unfolding with_defaults validate_limits is_supported_operation decode_payload validate_movement
      validate_upsert validate_delete is_json_object trim_space
  validate_operation configured o = elim (validate_limits (with_defaults configured)) [
    | rejected e ↦ rejected e
    | valid _ ↦ validate_envelope (with_defaults configured) o
  ]
