-- ===== src/Sync/Limits.antt =====
-- The bounds of an exchange (server/internal/sync/dto.go) and the errors of its validation.
pub mod Defaults
use stok_sync.Common.{Option, none, some, Bool, ◌&&◌, ◌||◌, List, [], ◌∷◌, String, if◌then◌else◌}
use stok_sync.Common.Int.{ℤ, pos, ltb_ℤ, leb_ℤ, eq_ℤ}

pub data ErrorKind : Type 0 where
  invalid_request invalid_operation invalid_response request_too_large : ErrorKind
  too_many_operations too_many_changes max_changes_exceeded : ErrorKind

-- `ValidationError`, `RequestLimitError`, `UnsupportedSchemaVersionError` and `ErrInvalidLimits`.
pub data Invalid : Type 0 where
  validation : ErrorKind → String → String → Invalid
  limit : ErrorKind → ℤ → ℤ → Invalid
  unsupported_schema : ℤ → ℤ → Invalid
  invalid_limits : Invalid

pub data Checked (A : Type 0) : Type 0 where
  valid : A → Checked A
  rejected : Invalid → Checked A

abbrev pub check : Bool → Invalid → Checked (Unit {0}) → Checked (Unit {0})
check bad e rest = if bad then rejected e else rest

-- `next` is what follows an accepted value.
abbrev pub then_check : Checked (Unit {0}) → Checked (Unit {0}) → Checked (Unit {0})
then_check (rejected e) next = rejected e
then_check (valid _) next = next

pub record Limits : Type 0 where
  pub max_request_bytes : ℤ
  pub max_operations : ℤ
  pub max_changes : ℤ
  pub max_operation_payload_bytes : ℤ

unfoldable pub default_limits : Limits
default_limits = record {
  max_request_bytes = pos 1048576;
  max_operations = pos 100;
  max_changes = pos 500;
  max_operation_payload_bytes = pos 262144;
}

abbrev or_default : ℤ → ℤ → ℤ
or_default n d = if eq_ℤ n (pos 0) then d else n

-- An omitted payload bound is lowered to the request bound.
abbrev payload_bound : ℤ → ℤ → ℤ → ℤ
payload_bound n d request =
    if eq_ℤ n (pos 0) then if ltb_ℤ (pos 0) request && ltb_ℤ request d then request else d else n

unfoldable pub with_defaults : Limits → Limits
unfolding default_limits
with_defaults l = record {
  max_request_bytes = or_default l.max_request_bytes default_limits.max_request_bytes;
  max_operations = or_default l.max_operations default_limits.max_operations;
  max_changes = or_default l.max_changes default_limits.max_changes;
  max_operation_payload_bytes =
      payload_bound l.max_operation_payload_bytes default_limits.max_operation_payload_bytes
        (or_default l.max_request_bytes default_limits.max_request_bytes);
}

unfoldable pub validate_limits : Limits → Checked (Unit {0})
validate_limits l =
    check
      (leb_ℤ l.max_request_bytes (pos 0)
        || leb_ℤ l.max_operations (pos 0)
        || leb_ℤ l.max_changes (pos 0)
        || leb_ℤ l.max_operation_payload_bytes (pos 0))
      invalid_limits
      (check (ltb_ℤ l.max_request_bytes l.max_operation_payload_bytes) invalid_limits (valid tt))

-- The variadic argument: none or one configuration.
unfoldable pub configured_limits : List Limits → Checked Limits
unfolding default_limits with_defaults validate_limits
configured_limits [] = elim (validate_limits default_limits) [
  | valid _ ↦ valid default_limits
  | rejected e ↦ rejected e
]
configured_limits (l ∷ []) = elim (validate_limits (with_defaults l)) [
  | valid _ ↦ valid (with_defaults l)
  | rejected e ↦ rejected e
]
configured_limits (l ∷ m ∷ ls) = rejected invalid_limits
