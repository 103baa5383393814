-- ===== src/Movements/Accepts.antt =====
-- Appends that are accepted, and appends that reuse an identifier (server/internal/movements/service.go).
use stok_sync.Common.{
  none, some, Bool, true, false, ◌&&◌, List, [], ◌∷◌, ◌≡◌, refl, arith, ◌==◌, is_some, Bool-cases,
  inl, inr,
}
use stok_sync.Common.Int.{pos, eq_ℤ}
use stok_sync.Common.Text.{str_eq}
use stok_sync.Common.Lists.{exists_row, find}
use stok_sync.Errors.{ok, err, pg_error, movement_error, MovementError}
use stok_sync.Db.Types.{Product, StockMovement}
use stok_sync.Db.Tx.{TxState}
use stok_sync.Db.Products.{is_active, owns_device, get_product_for_update}
use stok_sync.Db.Movements.{inserted, insert_stock_movement, kind_allowed}
use stok_sync.Movements.{
  AppendInput, or_miss, check_reversal, latest_stocktake, canonical_qty, check_order,
  movement_delta, map_movement_error, write_movement, append_write, append_checked,
  append_in_transaction_with_policy, resolution,
}
use stok_sync.Movements.Effect.{active_product, appended, write_balance-lem}

find-active :
    (input : AppendInput) (ps : List Product)
    → exists_row (λ p. (p.id == input.product_id && p.user_id == input.user_id) && is_active p) ps
      ≡ true
    → (p : Product) × (find
          (λ p. (p.id == input.product_id && p.user_id == input.user_id) && is_active p)
          ps
        ≡ some p)
      × (is_some p.deleted_at ≡ false)
find-active input [] h = cc
find-active input (p ∷ ps) h = elim (Bool-cases (matches p)) [
  | inl here ↦ (p, rw here refl, ground arith)
  | inr past ↦
      let (q, found, there) = find-active input ps (ground arith) in (q, rw past found, there)
]
  where
    matches : Product → Bool
    matches q = (q.id == input.product_id && q.user_id == input.user_id) && is_active q

and_false : (b : Bool) → (b && false) ≡ false
and_false true = refl
and_false false = refl

module _ (input : AppendInput) (s : TxState) where
  locked_lem :
      s.aborted ≡ false
      → active_product input s.db ≡ true
      → (p : Product) × (get_product_for_update input.user_id input.product_id s ≡ (ok p, s))
        × (is_some p.deleted_at ≡ false)
  unfolding get_product_for_update
  locked_lem live active =
      let (p, found, there) = find-active input s.db.products active in
      (p, rw (live, found) refl, there)

  insert_lem :
      s.aborted ≡ false
      → active_product input s.db ≡ true
      → eq_ℤ input.delta (pos 0) ≡ false
      → kind_allowed input.kind ≡ true
      → exists_row (λ m. m.id == input.id) s.db.movements ≡ false
      → owns_device input.user_id input.device_id s.db.devices ≡ true
      → input.reverses_id ≡ none
      → insert_stock_movement input s ≡ (
        ok (inserted input s.db),
        record s { db = record s.db { movements = inserted input s.db ∷ s.db.movements } },
      )
  unfolding insert_stock_movement
  insert_lem live active delta kind new device plain =
      rw (live, active, delta, kind, new, device, plain) refl

  reversal_lem : input.reverses_id ≡ none → check_reversal input input.reverses_id s ≡ (ok tt, s)
  unfolding check_reversal
  reversal_lem plain = rw plain refl

  latest_lem :
      (enforce : Bool)
      → str_eq input.kind "stocktake" ≡ false
      → latest_stocktake input enforce s ≡ (ok none, s)
  unfolding latest_stocktake
  latest_lem enforce counted = rw (counted, and_false enforce) refl

  qty_lem : str_eq input.kind "stocktake" ≡ false → canonical_qty input s ≡ (ok (pos 0), s)
  unfolding canonical_qty
  qty_lem counted = rw counted refl

  delta_lem :
      str_eq input.kind "stocktake" ≡ false
      → eq_ℤ input.delta (pos 0) ≡ false
      → movement_delta input (pos 0) ≡ ok input.delta
  unfolding movement_delta
  delta_lem counted delta = rw (counted, delta) refl

  resolution_lem :
      (enforce : Bool) (m : StockMovement)
      → str_eq input.kind "stocktake" ≡ false
      → resolution input enforce (pos 0) none m ≡ none
  unfolding resolution
  resolution_lem enforce m counted = rw counted refl

  write_lem :
      s.aborted ≡ false
      → active_product input s.db ≡ true
      → insert_stock_movement input s ≡ (
        ok (inserted input s.db),
        record s { db = record s.db { movements = inserted input s.db ∷ s.db.movements } },
      )
      → write_movement input s ≡ (ok (inserted input s.db), record s { db = appended input s.db })
  unfolding write_movement
  write_lem live active made = rw made (write_balance-lem input s live active)

  -- If the transaction is not aborted, the product is active and of the account, the delta is not 0, the
  -- kind is receive, issue or adjust, the identifier is new, the device is the account's and nothing
  -- is reversed, then the append succeeds, with the policy on or off: its row, with the delta of
  -- the input, is put in front of the ledger, and the product's balance row takes its delta.
  pub append_accepts :
      (enforce : Bool)
      → s.aborted ≡ false
      → active_product input s.db ≡ true
      → eq_ℤ input.delta (pos 0) ≡ false
      → kind_allowed input.kind ≡ true
      → str_eq input.kind "stocktake" ≡ false
      → exists_row (λ m. m.id == input.id) s.db.movements ≡ false
      → owns_device input.user_id input.device_id s.db.devices ≡ true
      → input.reverses_id ≡ none
      → append_in_transaction_with_policy input enforce s
        ≡ (ok (inserted input s.db, none), record s { db = appended input s.db })
  unfolding append_in_transaction_with_policy or_miss append_checked check_order append_write
  append_accepts enforce live active delta kind counted new device plain =
      let (p, locked, there) = locked_lem live active in
      rw
        (
          locked,
          there,
          reversal_lem plain,
          latest_lem enforce counted,
          qty_lem counted,
          delta_lem counted delta,
          write_lem live active (insert_lem live active delta kind new device plain),
          resolution_lem enforce (inserted input s.db) counted,
        )
        refl

  conflict_lem :
      s.aborted ≡ false
      → active_product input s.db ≡ true
      → eq_ℤ input.delta (pos 0) ≡ false
      → kind_allowed input.kind ≡ true
      → exists_row (λ m. m.id == input.id) s.db.movements ≡ true
      → insert_stock_movement input s
        ≡ (err (pg_error "stock_movements_pkey"), record s { aborted = true })
  unfolding insert_stock_movement
  conflict_lem live active delta kind reused = rw (live, active, delta, kind, reused) refl

  unwritten_lem :
      insert_stock_movement input s
        ≡ (err (pg_error "stock_movements_pkey"), record s { aborted = true })
      → write_movement input s
        ≡ (err (movement_error MovementError.movement_conflict), record s { aborted = true })
  unfolding write_movement map_movement_error
  unwritten_lem failed = rw failed refl

  -- If the conditions of an accepted append hold, but a movement with the identifier is recorded
  -- already, then the append answers `movement_conflict` and the transaction is aborted, so that
  -- no later statement of it can succeed.
  pub append_conflicts :
      (enforce : Bool)
      → s.aborted ≡ false
      → active_product input s.db ≡ true
      → eq_ℤ input.delta (pos 0) ≡ false
      → kind_allowed input.kind ≡ true
      → str_eq input.kind "stocktake" ≡ false
      → exists_row (λ m. m.id == input.id) s.db.movements ≡ true
      → input.reverses_id ≡ none
      → append_in_transaction_with_policy input enforce s
        ≡ (err (movement_error MovementError.movement_conflict), record s { aborted = true })
  unfolding append_in_transaction_with_policy or_miss append_checked check_order append_write
  append_conflicts enforce live active delta kind counted reused plain =
      let (p, locked, there) = locked_lem live active in
      rw
        (
          locked,
          there,
          reversal_lem plain,
          latest_lem enforce counted,
          qty_lem counted,
          delta_lem counted delta,
          unwritten_lem (conflict_lem live active delta kind reused),
        )
        refl
