-- ===== src/Sync/Request/Accepted.antt =====
-- What an accepted request satisfies (server/internal/sync/dto.go).
use Prim.Native.String.{len}
use stok_sync.Common.{
  Bool, not, String, subst, Option, none, some, true, false, List, [], ◌∷◌, ◌≡◌, refl, arith, ap,
  Bool-cases, inl, inr, ◌==◌,
}
use stok_sync.Common.Int.{ℤ, pos, negsuc, ltb_ℤ, leb_ℤ, eq_ℤ, ◌≤ℤ◌, ◌<ℤ◌}
use stok_sync.Common.Lists.{length, All}
use stok_sync.Sync.Dto.{Codec, Operation, SyncRequest}
use stok_sync.Sync.Limits.{
  Checked, valid, rejected, then_check, check, Invalid, Limits, validate_limits, with_defaults,
  configured_limits,
}
use stok_sync.Sync.Validate.{validate_operation}
use stok_sync.Sync.Request.{
  Body, text, validate_operations, validate_ops, validate_fields, validate_request, decode_request,
  read_body, validated, decoded, with_limits, no_reader, unreadable,
}

both-valid :
    (c next : Checked (Unit {0}))
    → then_check c next ≡ valid tt
    → (c ≡ valid tt) × (next ≡ valid tt)
both-valid (valid tt) next h = (refl, h)
both-valid (rejected e) next h = cc

check-valid :
    (b : Bool) (e : Invalid) (rest : Checked (Unit {0}))
    → check b e rest ≡ valid tt
    → (b ≡ false) × (rest ≡ valid tt)
check-valid false e rest h = (refl, h)
check-valid true e rest h = cc

rejected-valid : {A : Type 0} {e : Invalid} {a : A} → rejected e ≡ valid a → ⊥
rejected-valid e = subst (λ c. elim c [ valid _ ↦ ⊥ | rejected _ ↦ Unit ]) e tt

at_most : (a b : ℤ) → ltb_ℤ b a ≡ false → a ≤ℤ b
at_most a b h = ground arith

above : (a b : ℤ) → leb_ℤ b a ≡ false → a <ℤ b
above a b h = ground arith

nonzero : (n : ℤ) → leb_ℤ n (pos 0) ≡ false → eq_ℤ n (pos 0) ≡ false
nonzero n h = ground arith

positive-limits :
    (l : Limits)
    → validate_limits l ≡ valid tt
    → (leb_ℤ l.max_request_bytes (pos 0) ≡ false)
      × (leb_ℤ l.max_operations (pos 0) ≡ false)
      × (leb_ℤ l.max_changes (pos 0) ≡ false)
      × (leb_ℤ l.max_operation_payload_bytes (pos 0) ≡ false)
unfolding validate_limits
positive-limits l h = ground arith

is_one : {a : ℤ} → not (eq_ℤ a (pos 1)) ≡ false → a ≡ pos 1
is_one {a = pos n} h = ap pos (ground arith)
is_one {a = negsuc n} h = ground arith

with_defaults-valid : (l : Limits) → validate_limits l ≡ valid tt → with_defaults l ≡ l
unfolding validate_limits with_defaults
with_defaults-valid l h =
    let (bytes, operations, changes, payload) = positive-limits l h in
    rw
      (
        nonzero l.max_request_bytes bytes,
        nonzero l.max_operations operations,
        nonzero l.max_changes changes,
        nonzero l.max_operation_payload_bytes payload,
      )
      refl

module _ (codec : Codec) where
  -- The request is within the bounds, and each of its operations is valid.
  abbrev pub Within : Limits → SyncRequest → Type 0
  Within limits r =
      (r.schema_version ≡ pos 1)
      × ((r.device_id == 0) ≡ false)
      × (pos 0 ≤ℤ r.cursor)
      × (pos 0 <ℤ r.max_changes)
      × (r.max_changes ≤ℤ limits.max_changes)
      × (ops : List Operation) × (r.ops ≡ some ops)
      × (pos (length ops) ≤ℤ limits.max_operations)
      × All (λ o. validate_operation codec limits o ≡ valid tt) ops

  operations-All :
      (limits : Limits) (ops : List Operation)
      → validate_operations codec limits ops ≡ valid tt
      → All (λ o. validate_operation codec limits o ≡ valid tt) ops
  unfolding validate_operations
  operations-All limits [] h = tt
  operations-All limits (o ∷ os) h =
      let both =
        both-valid (validate_operation codec limits o) (validate_operations codec limits os) h in
      (both.0, operations-All limits os both.1)

  ops-Within :
      (limits : Limits) (o : Option (List Operation))
      → validate_ops codec limits o ≡ valid tt
      → (ops : List Operation) × (o ≡ some ops)
        × (pos (length ops) ≤ℤ limits.max_operations)
        × All (λ x. validate_operation codec limits x ≡ valid tt) ops
  ops-Within limits none h = cc
  ops-Within limits (some ops) h =
      let few = check-valid (ltb_ℤ limits.max_operations (pos (length ops))) _ _ h in
      (
        ops,
        refl,
        at_most (pos (length ops)) limits.max_operations few.0,
        operations-All limits ops few.1,
      )

  fields-Within :
      (limits : Limits) (r : SyncRequest)
      → validate_fields codec limits r ≡ valid tt
      → Within limits r
  fields-Within limits r h =
      let schema = check-valid _ _ _ h in
      let device = check-valid _ _ _ schema.1 in
      let cursor = check-valid _ _ _ device.1 in
      let some_changes = check-valid _ _ _ cursor.1 in
      let most_changes = check-valid _ _ _ some_changes.1 in
      let time = check-valid _ _ _ most_changes.1 in
      let (ops, given, few, each) = ops-Within limits r.ops time.1 in
      (
        is_one schema.0,
        device.0,
        at_most (pos 0) r.cursor cursor.0,
        above (pos 0) r.max_changes some_changes.0,
        at_most r.max_changes limits.max_changes most_changes.0,
        ops,
        given,
        few,
        each,
      )

  request-Within :
      (limits : Limits) (r : SyncRequest)
      → validate_limits limits ≡ valid tt
      → validate_request codec limits r ≡ valid tt
      → Within limits r
  unfolding validate_request
  request-Within limits r sound h = fields-Within limits r (
      subst (λ l. validate_fields codec l r ≡ valid tt) (with_defaults-valid limits sound)
        (both-valid (validate_limits (with_defaults limits)) _ h).1)

  validated-valid :
      (limits : Limits) (q r : SyncRequest) (c : Checked (Unit {0}))
      → validated codec limits q c ≡ valid r
      → (c ≡ valid tt) × (q ≡ r)
  validated-valid limits q r (valid tt) h =
      (refl, ap (λ c. elim c [ valid x ↦ x | rejected _ ↦ q ]) h)
  validated-valid limits q r (rejected e) h = elim (rejected-valid h) [ ]

  accepted-Within :
      (limits : Limits) (raw : String) (o : Option SyncRequest) (r : SyncRequest)
      → validate_limits limits ≡ valid tt
      → decoded codec limits raw o ≡ valid r
      → Within limits r
  accepted-Within limits raw none r sound h = cc
  accepted-Within limits raw (some q) r sound h = elim (Bool-cases (codec.ends_after_value raw)) [
    | inr longer ↦ elim (rejected-valid (rw longer at h)) [ ]
    | inl ends ↦
        let both = validated-valid limits q r (validate_request codec limits q) (rw ends at h) in
        subst (Within limits) both.1 (request-Within limits q sound both.0)
  ]

  body-Within :
      (limits : Limits) (body : Body) (r : SyncRequest)
      → validate_limits limits ≡ valid tt
      → read_body codec limits body ≡ valid r
      → (raw : String) × (body ≡ text raw)
        × (pos (len raw) ≤ℤ limits.max_request_bytes)
        × Within limits r
  body-Within limits no_reader r sound h = elim (rejected-valid h) [ ]
  body-Within limits unreadable r sound h = elim (rejected-valid h) [ ]
  body-Within limits (text raw) r sound h =
      elim (Bool-cases (ltb_ℤ limits.max_request_bytes (pos (len raw)))) [
        | inl long ↦ elim (rejected-valid (rw long at h)) [ ]
        | inr fits ↦ (
          raw,
          refl,
          at_most (pos (len raw)) limits.max_request_bytes fits,
          accepted-Within limits raw (codec.decode_request raw) r sound (rw fits at h),
        )
      ]

  -- If the body is accepted under a configuration, it was read, it is no longer than the bound on requests, and
  -- the request has the schema's version, a device, a cursor that is not negative, a page size
  -- from one to the bound, and an array of at most the bound's operations, each of them valid.
  pub decode_request-Within :
      (configured : Limits) (body : Body) (r : SyncRequest)
      → decode_request codec (configured ∷ []) body ≡ valid r
      → (raw : String) × (body ≡ text raw)
        × (pos (len raw) ≤ℤ (with_defaults configured).max_request_bytes)
        × Within (with_defaults configured) r
  unfolding decode_request configured_limits
  decode_request-Within configured body r h = go (validate_limits (with_defaults configured)) refl h
    where
      go :
          (v : Checked (Unit {0}))
          → validate_limits (with_defaults configured) ≡ v
          → with_limits codec
              (elim v [ valid _ ↦ valid (with_defaults configured) | rejected e ↦ rejected e ])
              (λ limits. read_body codec limits body)
            ≡ valid r
          → (raw : String) × (body ≡ text raw)
            × (pos (len raw) ≤ℤ (with_defaults configured).max_request_bytes)
            × Within (with_defaults configured) r
      go (valid tt) sound accepted = body-Within (with_defaults configured) body r sound accepted
      go (rejected e) sound accepted = elim (rejected-valid accepted) [ ]
