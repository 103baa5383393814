-- ===== src/Movements/Append.antt =====
-- `appendInTransactionWithPolicy` as a whole: what an accepted append has read and written, and
-- that a refused one has written nothing.
use stok_sync.Common.{
  Option, none, some, Bool, false, ◌&&◌, ◌≡◌, refl, arith, subst, ap₂, any_some, is_some,
  if◌then◌else◌, Bool-cases, inl, inr,
}
use stok_sync.Common.Int.{ℤ, pos}
use stok_sync.Common.Text.{str_eq}
use stok_sync.Errors.{Result, ok, err, StocktakeResolution, Uuid}
use stok_sync.Db.Types.{Database, StockMovement, Product}
use stok_sync.Db.Tx.{TxState, from_result, pure, and_then, ◌>>◌}
use stok_sync.Db.Tx.Ends.{Ends, Reads, Split, Reads-Split, then-Ends, then-Reads}
use stok_sync.Db.Products.{get_product_for_update}
use stok_sync.Db.Movements.{
  get_latest_stocktake_sql, sum_delta, get_stock_movement_by_id, get_latest_stocktake,
  get_product_ledger_balance,
}
use stok_sync.Movements.{
  AppendInput, or_miss, check_reversal, latest_stocktake, canonical_qty, check_order, is_displaced,
  movement_delta, resolution, append_write, append_checked, check_deleted, write_movement,
  append_in_transaction_with_policy,
}
use stok_sync.Movements.Effect.{Written, Untouched, or_miss-Reads, write_movement-Ends}

-- The balance that a stocktake is compared with.
abbrev pub qty_of : AppendInput → Database → ℤ
qty_of input db =
    if str_eq input.kind "stocktake"
    then sum_delta input.user_id input.product_id db.movements
    else pos 0

-- The stocktake that an incoming one has to come after.
abbrev pub latest_of : AppendInput → Bool → Database → Option StockMovement
latest_of input enforce db =
    if enforce && str_eq input.kind "stocktake"
    then get_latest_stocktake_sql input.user_id input.product_id db
    else none

locked-Split :
    (input : AppendInput) (s : TxState)
    → Split s (λ _. Unit {0}) (get_product_for_update input.user_id input.product_id s)
unfolding get_product_for_update
locked-Split input s = Reads-Split (λ _. Unit {0}) s _ (ground arith)

latest_stocktake-Split :
    (input : AppendInput) (enforce : Bool) (s : TxState)
    → Split s (λ l. l ≡ latest_of input enforce s.db) (latest_stocktake input enforce s)
unfolding latest_stocktake get_latest_stocktake
latest_stocktake-Split input enforce s =
    Reads-Split (λ l. l ≡ latest_of input enforce s.db) s _ (ground arith)

canonical_qty-Split :
    (input : AppendInput) (s : TxState)
    → Split s (λ q. q ≡ qty_of input s.db) (canonical_qty input s)
unfolding canonical_qty get_product_ledger_balance
canonical_qty-Split input s = Reads-Split (λ q. q ≡ qty_of input s.db) s _ (ground arith)

check_reversal-Reads :
    (input : AppendInput) (target : Option Uuid) (s : TxState)
    → Reads s (λ _. Unit {0}) (check_reversal input target s)
unfolding check_reversal get_stock_movement_by_id
check_reversal-Reads input none s = (refl, tt)
check_reversal-Reads input (some target) s = ground arith

check_order-Reads :
    (input : AppendInput) (qty : ℤ) (latest : Option StockMovement) (s : TxState)
    → Reads s (λ _. any_some (is_displaced input) latest ≡ false) (check_order input qty latest s)
unfolding check_order
check_order-Reads input qty none s = (refl, refl)
check_order-Reads input qty (some latest) s = ground arith

from_result-Reads :
    {A : Type 0} (r : Result A) (s : TxState) → Reads s (λ a. r ≡ ok a) (from_result r s)
from_result-Reads (ok a) s = (refl, refl)
from_result-Reads (err e) s = refl

check_reversal-Split :
    (input : AppendInput) (target : Option Uuid) (s : TxState)
    → Split s (λ _. Unit {0}) (check_reversal input target s)
check_reversal-Split input target s =
    Reads-Split (λ _. Unit {0}) s _ (check_reversal-Reads input target s)

check_order-Split :
    (input : AppendInput) (qty : ℤ) (latest : Option StockMovement) (s : TxState)
    → Split s (λ _. any_some (is_displaced input) latest ≡ false) (check_order input qty latest s)
check_order-Split input qty latest s =
    Reads-Split (λ _. any_some (is_displaced input) latest ≡ false) s _
      (check_order-Reads input qty latest s)

from_result-Split :
    {A : Type 0} (r : Result A) (s : TxState) → Split s (λ a. r ≡ ok a) (from_result r s)
from_result-Split r s = Reads-Split (λ a. r ≡ ok a) s _ (from_result-Reads r s)

-- What an accepted append has done: it wrote the row with the delta that the ledger gives it.
abbrev pub Appends :
    AppendInput → Bool → TxState → StockMovement × Option StocktakeResolution → TxState → Type 0
Appends input enforce s (m, r) t =
    (delta : ℤ) × (movement_delta input (qty_of input s.db) ≡ ok delta)
    × Written (record input { delta = delta }) s m t
    × (any_some (is_displaced input) (latest_of input enforce s.db) ≡ false)
    × (r ≡ resolution input enforce (qty_of input s.db) (latest_of input enforce s.db) m)

module _ (input : AppendInput) (enforce : Bool) (s : TxState) where
  abbrev Ended : Result (StockMovement × Option StocktakeResolution) × TxState → Type 0
  Ended = Ends (Untouched s) (Appends input enforce s)

  -- The tail of the append, from the delta on.
  write-Ended :
      (qty : ℤ) (latest : Option StockMovement)
      → qty ≡ qty_of input s.db
      → latest ≡ latest_of input enforce s.db
      → any_some (is_displaced input) latest ≡ false
      → Ended (append_write input enforce qty latest s)
  unfolding append_write
  write-Ended qty latest eq el later = elim (from_result-Split (movement_delta input qty) s) [
    | inr (e, failed) ↦ rw failed (refl, refl)
    | inl (delta, read, ed) ↦ rw read (
        then-Ends (Untouched s) (Appends input enforce s)
          (Written (record input { delta = delta }) s)
          (λ movement. pure (movement, resolution input enforce qty latest movement))
          (write_movement (record input { delta = delta }) s)
          (write_movement-Ends (record input { delta = delta }) s)
          λ m t w. (
            delta,
            subst (λ q. movement_delta input q ≡ ok delta) eq ed,
            w,
            subst (λ l. any_some (is_displaced input) l ≡ false) el later,
            ap₂ (λ q l. resolution input enforce q l m) eq el,
          ))
  ]

  checked-Ended : Ended (append_checked input enforce s)
  unfolding append_checked
  checked-Ended = elim (latest_stocktake-Split input enforce s) [
    | inr (e, failed) ↦ rw failed (refl, refl)
    | inl (latest, read, el) ↦ rw read (elim (canonical_qty-Split input s) [
      | inr (e, failed) ↦ rw failed (refl, refl)
      | inl (qty, read', eq) ↦ rw read' (elim (check_order-Split input qty latest s) [
        | inr (e, failed) ↦ rw failed (refl, refl)
        | inl (_, read'', later) ↦ rw read'' (write-Ended qty latest eq el later)
      ])
    ])
  ]

  allowed-Ended :
      (product : Product)
      → Ended (
          (check_deleted product
              >> (check_reversal input input.reverses_id >> append_checked input enforce))
            s)
  allowed-Ended product = elim (Bool-cases (is_some product.deleted_at)) [
    | inl deleted ↦ rw deleted (refl, refl)
    | inr active ↦ rw active (elim (check_reversal-Split input input.reverses_id s) [
      | inr (e, failed) ↦ rw failed (refl, refl)
      | inl (_, read, _) ↦ rw read checked-Ended
    ])
  ]

  found-Ended :
      (reply : Result Product)
      → Ended (
          and_then
            (λ product.
              check_deleted product
              >> (check_reversal input input.reverses_id >> append_checked input enforce))
            (or_miss input.user_id input.product_id reply s))
  found-Ended reply =
      then-Reads (Untouched s) (Appends input enforce s) s (λ p. reply ≡ ok p) _
        (or_miss input.user_id input.product_id reply s)
        (or_miss-Reads input.user_id input.product_id reply s) (λ _. (refl, refl))
        (λ product _. allowed-Ended product)

  -- An append that fails leaves the tables and the savepoint as they were. One that succeeds, with the
  -- stocktake policy on or off, has put its row in front of the ledger and increased the product's
  -- balance by the row's delta, in an open transaction with the product active; the delta is the
  -- one that the ledger's sum gives a stocktake, or the input's; it is not displaced by the latest
  -- recorded stocktake, if the policy is on; and the resolution is the one computed from these.
  pub append-Ends : Ended (append_in_transaction_with_policy input enforce s)
  unfolding append_in_transaction_with_policy
  append-Ends = elim (locked-Split input s) [
    | inr (e, failed) ↦ rw failed (found-Ended (err e))
    | inl (product, read, _) ↦ rw read (found-Ended (ok product))
  ]
