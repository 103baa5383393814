-- ===== src/Sync/Operations/Apply.antt =====
-- The outcome of each kind of operation, and of `applyOperation`.
use stok_sync.Common.{
  Option, none, some, not, ◌≡◌, refl, ap, ◌∙◌, arith, String, ◌==◌, Bool-cases, inl, inr, is_some,
  any_some, ◌⊎◌,
}
use stok_sync.Common.Int.{ℤ, eq_ℤ, pos}
use stok_sync.Errors.{
  Uuid, Error, Result, ok, err, no_rows, ProductError, MovementError, product_error, movement_error,
  StocktakeResolution,
}
use stok_sync.Db.Types.{Product, StockMovement}
use stok_sync.Db.Tx.{TxState, Tx, and_then}
use stok_sync.Db.Tx.Ends.{Anyhow, Ends, then-Ends}
use stok_sync.Db.Products.{get_product_by_id, get_active_product_by_barcode}
use stok_sync.Consistency.Step.{DomainStep}
use stok_sync.Movements.{append_movement_in_transaction_with_resolution}
use stok_sync.Movements.Effect.{Untouched}
use stok_sync.Products.{soft_delete_product_in_transaction}
use stok_sync.Sync.Dto.{
  Codec, OperationResult, Operation, Payload, add_movement, upsert_product, delete_product,
  AddMovementPayload, UpsertProductPayload, DeleteProductPayload, StocktakeOutcome,
}
use stok_sync.Sync.Limits.{default_limits, Checked, valid, rejected}
use stok_sync.Sync.Validate.{validate_operation, decode_payload}
use stok_sync.Sync.Operations.{
  Applied, Identity, rejected_result, rejected_for_domain_error, domain_reason, movement_failed,
  movement_replied, product_failed, product_replied, conflict_state, mutated, upsert_looked_up,
  apply_movement, apply_product_upsert, apply_product_delete, apply_payload, apply_operation,
  attach_canonical_barcode_product_state, attach_canonical_product_state, positive_base,
  run_product_mutation_with_barcode_recovery, marshal_movement_change, marshal_product_change,
  append_input, create_input, update_input, delete_input, refused, change_applied, conclude,
  product_rejected, rejection, update_from, delete_from, apply_checked,
}
use stok_sync.Sync.Operations.Effect.{Outcome, Failed, Stepped, recovery-Ends}
use stok_sync.Sync.Operations.Outcome.{
  Moved, append-Moved, create-Stepped, update-Stepped, delete-Stepped,
}

-- A rejection with the same status and no sequence, in the same state.
abbrev Restated : TxState → OperationResult → OperationResult → TxState → Type 0
Restated t r r' u = (u ≡ t) × (r'.status ≡ r.status) × (r'.seq ≡ r.seq)

module _ (codec : Codec) where
  abbrev Concludes : TxState → Result Applied × TxState → Type 0
  Concludes s = Ends Anyhow (Outcome s)

  refused-Outcome :
      (s t : TxState) (op_id : Uuid) (reason : String)
      → t.db ≡ s.db
      → Concludes s (refused codec op_id reason t)
  unfolding rejected_result
  refused-Outcome s t op_id reason h = (h, refl, refl)

  movement_failed-Outcome :
      (s t : TxState) (op_id : Uuid) (e : Error)
      → t.db ≡ s.db
      → Concludes s (movement_failed codec op_id e t)
  unfolding rejected_result rejected_for_domain_error
  movement_failed-Outcome s t op_id (movement_error (MovementError.stocktake_displaced r)) h =
      (h, refl, refl)
  movement_failed-Outcome s t op_id (movement_error _) h = (h, refl, refl)
  movement_failed-Outcome s t op_id (product_error _) h = (h, refl, refl)
  movement_failed-Outcome s t op_id _ h = tt

  change_applied-Outcome :
      (s t : TxState) (op_id : Uuid) (outcome : Option StocktakeOutcome) (entity op : String)
      (id : Uuid) (r : Result String)
      → DomainStep s.db t.db
      → Concludes s (change_applied op_id outcome entity op id r t)
  change_applied-Outcome s t op_id outcome entity op id (ok payload) h = (h, refl, refl)
  change_applied-Outcome s t op_id outcome entity op id (err e) h = tt

  movement_replied-Outcome :
      (s : TxState) (op_id : Uuid)
      (r : Result (StockMovement × Option StocktakeResolution) × TxState)
      → Ends (Untouched s) (Moved s) r
      → Concludes s (movement_replied codec op_id r.0 r.1)
  movement_replied-Outcome s op_id (err e, t) h = movement_failed-Outcome s t op_id e h.0
  movement_replied-Outcome s op_id (ok (m, res), t) h =
      change_applied-Outcome s t op_id _ _ _ _ (marshal_movement_change codec m res) h

  barcode_state-Restated :
      (user : Uuid) (barcode : Option String) (r : OperationResult) (t : TxState)
      → Ends Anyhow (Restated t r) (attach_canonical_barcode_product_state codec user barcode r t)
  unfolding attach_canonical_barcode_product_state get_active_product_by_barcode
  barcode_state-Restated user none r t = (refl, refl, refl)
  barcode_state-Restated user (some barcode) r t = ground arith

  product_state-Restated :
      (user id : Uuid) (r : OperationResult) (t : TxState)
      → Ends Anyhow (Restated t r) (attach_canonical_product_state codec user id r t)
  unfolding attach_canonical_product_state get_product_by_id
  product_state-Restated user id r t = ground arith

  conflict_state-Restated :
      (user id : Uuid) (barcode : Option String) (e : Error) (r : OperationResult) (t : TxState)
      → Ends Anyhow (Restated t r) (conflict_state codec user id barcode e r t)
  conflict_state-Restated user id barcode (product_error ProductError.barcode_conflict) r t =
      barcode_state-Restated user barcode r t
  conflict_state-Restated user id barcode (product_error ProductError.version_conflict) r t =
      product_state-Restated user id r t
  conflict_state-Restated user id barcode (product_error ProductError.product_deleted) r t =
      product_state-Restated user id r t
  conflict_state-Restated user id barcode _ r t = (refl, refl, refl)

  stated-Outcome :
      (s t : TxState) (user id op_id : Uuid) (barcode : Option String) (e : Error) (reason : String)
      → t.db ≡ s.db
      → Concludes s (
          and_then
            (conclude codec)
            (conflict_state codec user id barcode e (rejected_result op_id reason) t))
  unfolding rejected_result
  stated-Outcome s t user id op_id barcode e reason h =
      then-Ends Anyhow (Outcome s) (Restated t (rejected_result op_id reason)) (conclude codec)
        (conflict_state codec user id barcode e (rejected_result op_id reason) t)
        (conflict_state-Restated user id barcode e (rejected_result op_id reason) t)
        λ r u k. (ap (λ v. v.db) k.0 ∙ h, k.1, k.2)

  product_failed-Outcome :
      (s t : TxState) (identity : Identity) (op_id id : Uuid) (barcode : Option String) (e : Error)
      → Failed s e t
      → Concludes s (product_failed codec identity op_id id barcode e t)
  unfolding rejected_for_domain_error
  product_failed-Outcome s t identity op_id id barcode e h = go (domain_reason e) refl h
    where
      go :
          (o : Option String)
          → domain_reason e ≡ o
          → (t.db ≡ s.db) ⊎ (domain_reason e ≡ none)
          → Concludes s (product_rejected codec identity id barcode e (rejection op_id o) t)
      go none same h = tt
      go (some reason) same (inl h) =
          stated-Outcome s t identity.user_id id op_id barcode e reason h
      go (some reason) same (inr foreign) = cc

  product_replied-Outcome :
      (s : TxState) (identity : Identity) (op_id id : Uuid) (barcode : Option String) (op : String)
      (r : Result Product × TxState)
      → Ends (Failed s) (Stepped s) r
      → Concludes s (product_replied codec identity op_id id barcode op r.0 r.1)
  product_replied-Outcome s identity op_id id barcode op (err e, t) h =
      product_failed-Outcome s t identity op_id id barcode e h
  product_replied-Outcome s identity op_id id barcode op (ok p, t) h =
      change_applied-Outcome s t op_id none "product" op p.id (marshal_product_change codec p) h

  mutated-Outcome :
      (identity : Identity) (op_id : Uuid) (payload : UpsertProductPayload) (mutate : Tx Product)
      (s : TxState)
      → ((u : TxState) → Ends (Untouched u) (Stepped u) (mutate u))
      → Concludes s (mutated codec identity op_id payload mutate s)
  mutated-Outcome identity op_id payload mutate s acts =
      product_replied-Outcome s identity op_id payload.id _ "upsert"
        (run_product_mutation_with_barcode_recovery mutate s) (recovery-Ends mutate s acts)

  update_from-Outcome :
      (identity : Identity) (op_id : Uuid) (payload : UpsertProductPayload) (base : Option ℤ)
      (s : TxState)
      → Concludes s (update_from codec identity op_id payload base s)
  update_from-Outcome identity op_id payload none s = refused-Outcome s s op_id _ refl
  update_from-Outcome identity op_id payload (some version) s =
      mutated-Outcome identity op_id payload _ s
        (update-Stepped (update_input identity payload version))

  looked_up-Outcome :
      (identity : Identity) (op_id : Uuid) (base : Option ℤ) (payload : UpsertProductPayload)
      (s : TxState) (reply : Result Product)
      → Concludes s (upsert_looked_up codec identity op_id base payload reply s)
  unfolding rejected_result
  looked_up-Outcome identity op_id base payload s (err no_rows) =
      elim (Bool-cases (any_some (λ v. not (eq_ℤ v (pos 0))) base)) [
        | inl claimed ↦ rw claimed (refl, refl, refl)
        | inr unclaimed ↦ rw unclaimed (
            mutated-Outcome identity op_id payload _ s
              (create-Stepped (create_input identity payload)))
      ]
  looked_up-Outcome identity op_id base payload s (err _) = tt
  looked_up-Outcome identity op_id base payload s (ok current) =
      elim (Bool-cases (current.user_id == identity.user_id)) [
        | inr foreign ↦ rw foreign (refl, refl, refl)
        | inl owned ↦ elim (Bool-cases (is_some current.deleted_at)) [
          | inl gone ↦ rw (owned, gone) (refl, refl, refl)
          | inr there ↦
              rw (owned, there) (update_from-Outcome identity op_id payload (positive_base base) s)
        ]
      ]

  get-same : (id : Uuid) (s : TxState) → (get_product_by_id id s).1 ≡ s
  unfolding get_product_by_id
  get-same id s = ground arith

  upsert-Outcome :
      (identity : Identity) (op_id : Uuid) (base : Option ℤ) (payload : UpsertProductPayload)
      (s : TxState)
      → Concludes s (apply_product_upsert codec identity op_id base payload s)
  unfolding apply_product_upsert
  upsert-Outcome identity op_id base payload s =
      rw (get-same payload.id s)
        (looked_up-Outcome identity op_id base payload s (get_product_by_id payload.id s).0)

  Untouched-Failed :
      (s : TxState) (r : Result Product × TxState)
      → Ends (Untouched s) (Stepped s) r
      → Ends (Failed s) (Stepped s) r
  Untouched-Failed s (ok p, t) h = h
  Untouched-Failed s (err e, t) h = inl h.0

  delete-Outcome :
      (identity : Identity) (op_id : Uuid) (payload : DeleteProductPayload) (base : Option ℤ)
      (s : TxState)
      → Concludes s (delete_from codec identity op_id payload base s)
  delete-Outcome identity op_id payload none s = refused-Outcome s s op_id _ refl
  delete-Outcome identity op_id payload (some version) s =
      let input = delete_input identity payload version in
      product_replied-Outcome s identity op_id payload.id none "delete"
        (soft_delete_product_in_transaction input s)
        (Untouched-Failed s (soft_delete_product_in_transaction input s) (delete-Stepped input s))

  movement-Outcome :
      (identity : Identity) (op_id : Uuid) (payload : AddMovementPayload) (s : TxState)
      → Concludes s (apply_movement codec identity op_id payload s)
  unfolding apply_movement rejected_result
  movement-Outcome identity op_id payload s =
      elim (Bool-cases (any_some (λ d. not (d == identity.device_id)) payload.device_id)) [
        | inl other ↦ rw other (refl, refl, refl)
        | inr same ↦
            let input = append_input identity payload in
            rw same (
              movement_replied-Outcome s op_id
                (append_movement_in_transaction_with_resolution input s) (append-Moved input s))
      ]

  payload-Outcome :
      (identity : Identity) (o : Operation) (p : Option Payload) (s : TxState)
      → Concludes s (apply_payload codec identity o p s)
  unfolding apply_product_delete
  payload-Outcome identity o none s = refused-Outcome s s o.op_id _ refl
  payload-Outcome identity o (some (add_movement p)) s = movement-Outcome identity o.op_id p s
  payload-Outcome identity o (some (upsert_product p)) s =
      upsert-Outcome identity o.op_id o.base_version p s
  payload-Outcome identity o (some (delete_product p)) s =
      delete-Outcome identity o.op_id p (positive_base o.base_version) s

  checked-Outcome :
      (identity : Identity) (o : Operation) (c : Checked (Unit {0})) (s : TxState)
      → Concludes s (apply_checked codec identity o c s)
  checked-Outcome identity o (rejected _) s = refused-Outcome s s o.op_id _ refl
  checked-Outcome identity o (valid _) s = payload-Outcome identity o (decode_payload codec o) s

  -- Whatever the operation, a rejection has written nothing and an applied result comes with exactly
  -- one domain mutation.
  pub apply_operation-Outcome :
      (identity : Identity) (o : Operation) (s : TxState)
      → Ends Anyhow (Outcome s) (apply_operation codec identity o s)
  unfolding apply_operation
  apply_operation-Outcome identity o s =
      checked-Outcome identity o (validate_operation codec default_limits o) s
