-- ===== src/Movements/Stocktakes.antt =====
-- Stocktakes (server/internal/movements/service.go): their order, and the balance after one.
use stok_sync.Common.{
  not, Option, some, Bool, true, ◌≡◌, ◌≢◌, refl, sym, ap, ◌∙◌, subst, arith, ap₂, ◌∷◌, ==_refl,
}
use stok_sync.Common.Int.{
  ℤ, ◌+ℤ◌, ◌-ℤ◌, ◌≤ℤ◌, wrap64, wrap64_lem, min_int64_value, max_int64_value, int_laws,
}
use stok_sync.Common.Text.{str_eq}
use stok_sync.Errors.{Uuid, Time, Result, ok, err, StocktakeResolution}
use stok_sync.Db.Types.{StockMovement, Database}
use stok_sync.Db.Tx.{TxState}
use stok_sync.Db.Tx.Ends.{Ends}
use stok_sync.Db.Movements.{sum_delta, inserted, get_latest_stocktake_sql}
use stok_sync.Movements.{
  AppendInput, or_zero, movement_delta, delta64, stocktake_comes_after,
  append_in_transaction_with_policy,
}
use stok_sync.Movements.Effect.{Untouched}
use stok_sync.Movements.Append.{qty_of, latest_of, Appends, append-Ends}

-- Of two stocktakes with different identifiers exactly one comes after the other, by instant and then by
-- identifier.
pub stocktake_comes_after_total :
    (at bt : Time) (a b : Uuid)
    → a ≢ b
    → stocktake_comes_after at a bt b ≡ not (stocktake_comes_after bt b at a)
unfolding stocktake_comes_after
stocktake_comes_after_total at bt a b different = ground arith

-- The order of stocktakes is transitive.
pub stocktake_comes_after_trans :
    (at bt ct : Time) (a b c : Uuid)
    → stocktake_comes_after ct c bt b ≡ true
    → stocktake_comes_after bt b at a ≡ true
    → stocktake_comes_after ct c at a ≡ true
unfolding stocktake_comes_after
stocktake_comes_after_trans at bt ct a b c later later' = ground arith

sub_back : (n q : ℤ) → q +ℤ (n -ℤ q) ≡ n
sub_back n q = grind int_laws

ok_inj : {A : Type 0} (a b : A) → Result.ok a ≡ ok b → a ≡ b
ok_inj a b h = ap (λ r. elim r [ ok x ↦ x | err e ↦ a ]) h

delta-stocktake :
    (input : AppendInput) (qty delta : ℤ)
    → str_eq input.kind "stocktake" ≡ true
    → movement_delta input qty ≡ ok delta
    → delta64 input qty ≡ delta
unfolding movement_delta
delta-stocktake input qty delta kind h = ground arith

pub latest_of-stocktake :
    (input : AppendInput) (db : Database)
    → str_eq input.kind "stocktake" ≡ true
    → latest_of input true db ≡ get_latest_stocktake_sql input.user_id input.product_id db
latest_of-stocktake input db kind = rw kind refl

pub accepted :
    (input : AppendInput) (enforce : Bool) (s t : TxState)
    (a : StockMovement × Option StocktakeResolution)
    → append_in_transaction_with_policy input enforce s ≡ (ok a, t)
    → Appends input enforce s a t
accepted input enforce s t a e =
    subst (Ends (Untouched s) (Appends input enforce s)) e (append-Ends input enforce s)

qty_of-stocktake :
    (input : AppendInput) (db : Database)
    → str_eq input.kind "stocktake" ≡ true
    → qty_of input db ≡ sum_delta input.user_id input.product_id db.movements
qty_of-stocktake input db kind = rw kind refl

pub sum_delta-inserted :
    (input : AppendInput) (db : Database)
    → sum_delta input.user_id input.product_id (inserted input db ∷ db.movements)
      ≡ sum_delta input.user_id input.product_id db.movements +ℤ input.delta
sum_delta-inserted input db = rw (==_refl input.user_id, ==_refl input.product_id) refl

pub appended-stocktake :
    (input : AppendInput) (enforce : Bool) (s t : TxState)
    (a : StockMovement × Option StocktakeResolution) (n : ℤ)
    → str_eq input.kind "stocktake" ≡ true
    → input.counted_qty ≡ some n
    → min_int64_value ≤ℤ n -ℤ sum_delta input.user_id input.product_id s.db.movements
    → n -ℤ sum_delta input.user_id input.product_id s.db.movements ≤ℤ max_int64_value
    → Appends input enforce s a t
    → sum_delta input.user_id input.product_id t.db.movements ≡ n
appended-stocktake input enforce s t (m, r) n kind counted lo hi
      (delta, ed, (_, grown, _, _), _, _) =
    let before = sum_delta input.user_id input.product_id s.db.movements in
    let qty = qty_of-stocktake input s.db kind in
    let at_delta = delta-stocktake input (qty_of input s.db) delta kind ed in
    let difference : n -ℤ before ≡ delta =
      sym (wrap64_lem (n -ℤ before) lo hi)
      ∙ ap₂ (λ c q. wrap64 (or_zero c -ℤ q)) (sym counted) (sym qty)
      ∙ at_delta in
    ap (λ u. sum_delta input.user_id input.product_id u.db.movements) grown
    ∙ sum_delta-inserted (record input { delta = delta }) s.db
    ∙ ap (λ d. before +ℤ d) (sym difference)
    ∙ sub_back n before

-- If a stocktake that counted `n` is appended, with the policy on or off, and `n` less the ledger's
-- sum fits in 64 bits, then the sum of the product's ledger rows is `n` afterwards.
pub stocktake_reconciles :
    (input : AppendInput) (enforce : Bool) (s t : TxState)
    (a : StockMovement × Option StocktakeResolution) (n : ℤ)
    → str_eq input.kind "stocktake" ≡ true
    → input.counted_qty ≡ some n
    → min_int64_value ≤ℤ n -ℤ sum_delta input.user_id input.product_id s.db.movements
    → n -ℤ sum_delta input.user_id input.product_id s.db.movements ≤ℤ max_int64_value
    → append_in_transaction_with_policy input enforce s ≡ (ok a, t)
    → sum_delta input.user_id input.product_id t.db.movements ≡ n
stocktake_reconciles input enforce s t a n kind counted lo hi e =
    appended-stocktake input enforce s t a n kind counted lo hi (accepted input enforce s t a e)
