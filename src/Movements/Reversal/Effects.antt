-- ===== src/Movements/Reversal/Effects.antt =====
-- What an accepted reversal or recorded stocktake does to the ledger's sum
-- (server/internal/movements/service.go).
use stok_sync.Common.{
  Option, none, some, Bool, true, false, not, ◌&&◌, ◌||◌, ◌≡◌, refl, sym, ap, ◌∙◌, arith, subst,
  ◌==◌, Bool-cases, inl, inr, is_some, ◌∷◌, ==_lem,
}
use stok_sync.Common.Int.{
  ℤ, pos, neg, ◌+ℤ◌, ◌-ℤ◌, ◌≤ℤ◌, min_int64_value, max_int64_value, int_laws, ltb_ℤ, eq_ℤ,
}
use stok_sync.Common.Text.{str_eq, trim_space}
use stok_sync.Errors.{Error, Result, ok, err, no_rows, MovementError, movement_error}
use stok_sync.Db.Types.{Database, StockMovement, CreateStockMovementParams}
use stok_sync.Db.Tx.{TxState, begin, and_then, pure}
use stok_sync.Db.Tx.Ends.{
  Anyhow, Ends, Reads-Split, select_one-Reads, Commits, with_tx_result-Commits, Ends-mono,
}
use stok_sync.Db.Movements.{get_stock_movement_by_id, get_stock_movement_by_id_sql, sum_delta}
use stok_sync.Products.{run_normalized}
use stok_sync.Movements.{
  normalize_append_input, normalized_input, append_movement, append_in_transaction,
  append_in_transaction_with_policy, movement_delta,
}
use stok_sync.Movements.Effect.{Untouched}
use stok_sync.Movements.Append.{Appends, append-Ends}
use stok_sync.Movements.Stocktakes.{sum_delta-inserted, appended-stocktake}
use stok_sync.Movements.Reversal.{
  ReverseInput, StocktakeInput, stocktake_append, record_stocktake, target_of, reversal_of,
  reverse_found, reverse_in_transaction, reverse_movement, normalize_reverse_input,
  normalized_reversal,
}

-- The append without its resolution.
abbrev pub AppendsRow : CreateStockMovementParams → TxState → StockMovement → TxState → Type 0
AppendsRow input s m t =
    (r : Option stok_sync.Errors.StocktakeResolution) × Appends input false s (m, r) t

pub append_in_transaction-Ends :
    (input : CreateStockMovementParams) (s : TxState)
    → Ends Anyhow (AppendsRow input s) (append_in_transaction input s)
unfolding append_in_transaction
append_in_transaction-Ends input s =
    go (append_in_transaction_with_policy input false s) (append-Ends input false s)
  where
    go :
        (r : Result (StockMovement × Option stok_sync.Errors.StocktakeResolution) × TxState)
        → Ends (Untouched s) (Appends input false s) r
        → Ends Anyhow (AppendsRow input s) (and_then (λ a. pure a.0) r)
    go (ok (m, r), t) h = (r, h)
    go (err e, t) h = tt

-- The reversal of a recorded movement of the account, and the ledger's sum after it.
abbrev pub Reversed : ReverseInput → Database → StockMovement → Database → Type 0
Reversed input db m db' =
    (original : StockMovement) × (get_stock_movement_by_id_sql (target_of input) db ≡ some original)
    × (original.user_id ≡ input.user_id)
    × (m.reverses_id ≡ some original.id)
    × (m.delta ≡ neg original.delta)
    × (sum_delta input.user_id original.product_id db'.movements
        ≡ sum_delta input.user_id original.product_id db.movements -ℤ original.delta)

add_neg : (a b : ℤ) → a +ℤ neg b ≡ a -ℤ b
unfolding neg
add_neg a b = grind int_laws

plain_delta :
    (input : CreateStockMovementParams) (qty delta : ℤ)
    → str_eq input.kind "stocktake" ≡ false
    → movement_delta input qty ≡ ok delta
    → delta ≡ input.delta
unfolding movement_delta
plain_delta input qty delta kind h = ground arith

reversal-Reversed :
    (input : ReverseInput) (original : StockMovement) (s : TxState) (m : StockMovement)
    (t : TxState)
    → get_stock_movement_by_id_sql (target_of input) s.db ≡ some original
    → original.user_id ≡ input.user_id
    → AppendsRow (reversal_of input original) s m t
    → Reversed input s.db m t.db
reversal-Reversed input original s m t found own
      (r, (delta, ed, (made, grown, live, active), later, er)) =
    let same = plain_delta (reversal_of input original) _ delta refl ed in
    (
      original,
      found,
      own,
      ap (λ x. x.reverses_id) made,
      ap (λ x. x.delta) made ∙ same,
      ap (λ u. sum_delta input.user_id original.product_id u.db.movements) grown
          ∙ sum_delta-inserted (record (reversal_of input original) { delta = delta }) s.db
          ∙ ap (λ d. sum_delta input.user_id original.product_id s.db.movements +ℤ d) same
          ∙ add_neg (sum_delta input.user_id original.product_id s.db.movements) original.delta,
    )

found-Ends :
    (input : ReverseInput) (original : StockMovement) (s : TxState)
    → get_stock_movement_by_id_sql (target_of input) s.db ≡ some original
    → Ends Anyhow (λ m t. Reversed input s.db m t.db) (reverse_found input (ok original) s)
found-Ends input original s found = elim (Bool-cases (original.user_id == input.user_id)) [
  | inr foreign ↦ rw foreign tt
  | inl own ↦ elim (Bool-cases (eq_ℤ original.delta stok_sync.Common.Int.min_int32_value)) [
    | inl least ↦ rw (own, least) tt
    | inr other ↦
        rw (own, other)
          (Ends-mono Anyhow (AppendsRow (reversal_of input original) s)
            (λ m t. Reversed input s.db m t.db)
            (append_in_transaction (reversal_of input original) s)
            (append_in_transaction-Ends (reversal_of input original) s)
            λ m t h.
              reversal-Reversed input original s m t found
                (==_lem original.user_id input.user_id own) h)
  ]
]

missing-Ends :
    (input : ReverseInput) (e : Error) (s : TxState)
    → Ends Anyhow (λ m t. Reversed input s.db m t.db) (reverse_found input (err e) s)
missing-Ends input no_rows s = tt
missing-Ends input _ s = tt

reverse-Ends :
    (input : ReverseInput) (s : TxState)
    → Ends Anyhow (λ m t. Reversed input s.db m t.db) (reverse_in_transaction input s)
unfolding reverse_in_transaction get_stock_movement_by_id
reverse-Ends input s =
    elim (Reads-Split _ s _ (select_one-Reads (get_stock_movement_by_id_sql (target_of input)) s)) [
      | inr (e, failed) ↦ rw failed (missing-Ends input e s)
      | inl (original, read, found) ↦ rw read (found-Ends input original s found)
    ]

normalized_lem :
    (input n : ReverseInput) → normalize_reverse_input input ≡ ok n → n ≡ normalized_reversal input
unfolding normalize_reverse_input
normalized_lem input n h = ground arith

-- If a reversal fails, it leaves the database. If it succeeds, its row names a recorded movement of
-- the account, has the opposite delta, and the sum of that product's ledger is less by the delta
-- of the movement that it reverses.
pub reverse_movement-Reversed :
    (input : ReverseInput) (db : Database)
    → Commits (Reversed input db) db (reverse_movement input db)
unfolding reverse_movement
reverse_movement-Reversed input db = go (normalize_reverse_input input) refl
  where
    go :
        (r : Result ReverseInput)
        → normalize_reverse_input input ≡ r
        → Commits (Reversed input db) db (run_normalized r reverse_in_transaction db)
    go (err e) h = refl
    go (ok n) h = with_tx_result-Commits Anyhow (Reversed input db) (reverse_in_transaction n) db (
        subst
          (λ i. Ends Anyhow (λ m t. Reversed input db m t.db) (reverse_in_transaction i (begin db)))
          (sym (normalized_lem input n h)) (reverse-Ends (normalized_reversal input) (begin db)))

normalized_append :
    (input n : CreateStockMovementParams)
    → normalize_append_input input ≡ ok n
    → n ≡ normalized_input input
unfolding normalize_append_input
normalized_append input n h = ground arith

abbrev Counted : StocktakeInput → StockMovement → Database → Type 0
Counted input _ db' = sum_delta input.user_id input.product_id db'.movements ≡ input.counted_qty

stocktake_append-Counted :
    (input : StocktakeInput) (db : Database)
    → min_int64_value ≤ℤ input.counted_qty -ℤ sum_delta input.user_id input.product_id db.movements
    → input.counted_qty -ℤ sum_delta input.user_id input.product_id db.movements ≤ℤ max_int64_value
    → Commits (Counted input) db (append_movement (stocktake_append input) db)
unfolding append_movement trim_space
stocktake_append-Counted input db lo hi = go (normalize_append_input (stocktake_append input)) refl
  where
    appended : CreateStockMovementParams
    appended = normalized_input (stocktake_append input)

    go :
        (r : Result CreateStockMovementParams)
        → normalize_append_input (stocktake_append input) ≡ r
        → Commits (Counted input) db (run_normalized r append_in_transaction db)
    go (err e) h = refl
    go (ok n) h = with_tx_result-Commits Anyhow (Counted input) (append_in_transaction n) db (
        subst (λ i. Ends Anyhow (λ m t. Counted input m t.db) (append_in_transaction i (begin db)))
          (sym (normalized_append (stocktake_append input) n h))
          (Ends-mono Anyhow (AppendsRow appended (begin db)) (λ m t. Counted input m t.db)
            (append_in_transaction appended (begin db))
            (append_in_transaction-Ends appended (begin db))
            λ m t (r, a).
              appended-stocktake appended false (begin db) t (m, r) input.counted_qty refl refl lo
                hi a))

-- If a recorded stocktake fails, it leaves the database. If it succeeds, and the count less the
-- ledger's sum fits in 64 bits, then the sum of the product's ledger is the count.
pub record_stocktake_reconciles :
    (input : StocktakeInput) (db : Database)
    → min_int64_value ≤ℤ input.counted_qty -ℤ sum_delta input.user_id input.product_id db.movements
    → input.counted_qty -ℤ sum_delta input.user_id input.product_id db.movements ≤ℤ max_int64_value
    → Commits
        (λ _ db'. sum_delta input.user_id input.product_id db'.movements ≡ input.counted_qty)
        db
        (record_stocktake input db)
unfolding record_stocktake
record_stocktake_reconciles input db lo hi = elim (Bool-cases (ltb_ℤ input.counted_qty (pos 0))) [
  | inl negative ↦ rw negative refl
  | inr counted ↦ rw counted (stocktake_append-Counted input db lo hi)
]
