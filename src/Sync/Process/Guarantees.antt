-- ===== src/Sync/Process/Guarantees.antt =====
-- What `ProcessOperation` promises (server/internal/sync/service.go, operations.go): consistency of the
-- catalog, a gap-free change log, an append-only ledger and atomic errors.
use stok_sync.Common.{List, [], ◌∷◌, ◌++◌, ◌≡◌, refl, ap, ◌∙◌, sym, subst, inl, inr}
use stok_sync.Common.Int.{ℤ, pos, ◌+ℤ◌}
use stok_sync.Errors.{Time, Result, ok, err}
use stok_sync.Db.Types.{
  Database, ChangeLogEntry, AppendChangeLogParams, UpdateSyncOperationParams, StockMovement,
  InsertSyncOperationParams,
}
use stok_sync.Db.Tx.{TxState}
use stok_sync.Consistency.{IsConsistent, DistinctBalances}
use stok_sync.Consistency.Keys.{step-DistinctBalances}
use stok_sync.Consistency.Step.{
  DomainStep, step-IsConsistent, step-SameLog, SameLog, Grows, step-Grows,
}
use stok_sync.Sync.Dto.{Codec, Operation, OperationResult}
use stok_sync.Sync.Operations.{Identity}
use stok_sync.Sync.Process.{run_operation, reservation, outcome_params, change_params}
use stok_sync.Sync.Process.Fresh.{Recorded, with_outcome, with_entry, next_entry}
use stok_sync.Sync.Process.Run.{with_reservation, Answered, Performed, run_operation-Answered}

-- What a property of the database needs to survive every call.
record Kept (P : Database → Type 0) : Type 0 where
  at_reservation :
      (params : InsertSyncOperationParams) (db : Database) → P db → P (with_reservation params db)
  at_step : {db db' : Database} → DomainStep db db' → P db → P db'
  at_entry : (params : AppendChangeLogParams) (db : Database) → P db → P (with_entry params db)
  at_outcome :
      (params : UpdateSyncOperationParams) (db : Database) → P db → P (with_outcome params db)

module _ (codec : Codec) (now : Time) (identity : Identity) (o : Operation) (P : Database → Type 0)
    (kept : Kept P) where
  recorded-Kept :
      (s : TxState) (result : OperationResult) (d : Database)
      → Recorded identity s result d
      → P s.db
      → P d
  recorded-Kept s result d (inl (same, rejected, unnumbered)) h = subst P (sym same) h
  recorded-Kept s result d (inr (mid, change, step, e, applied, seq)) h =
      subst P (sym e) (kept.at_entry (change_params identity change) mid (kept.at_step step h))

  performed-Kept :
      (db : Database) (result : OperationResult) (db' : Database)
      → Performed codec now identity o db result db'
      → P db
      → P db'
  performed-Kept db result db' (free, s, u, start, end, (d, response, rec, e, done)) h =
      subst P (sym done ∙ end) (
        kept.at_outcome (outcome_params identity o.op_id result response now) d (
          recorded-Kept s result d rec
            (subst P (sym start) (kept.at_reservation (reservation identity o.op_id) db h))))

  answered-Kept :
      (db : Database) (r : Result OperationResult × Database)
      → Answered codec now identity o db r
      → P db
      → P r.1
  answered-Kept db (err e, db') same h = subst P (sym same) h
  answered-Kept db (ok result, db') (inl (same, replayed)) h = subst P (sym same) h
  answered-Kept db (ok result, db') (inr performed) h = performed-Kept db result db' performed h

  run_operation-Kept : (db : Database) → P db → P (run_operation codec now identity o db).1
  run_operation-Kept db h =
      answered-Kept db (run_operation codec now identity o db)
        (run_operation-Answered codec now identity o db) h

-- `change_log` numbered one by one from `k`, up to the last entry.
abbrev pub NumberedFrom : ℤ → List ChangeLogEntry → ℤ → Type 0
NumberedFrom k [] last = last ≡ k
NumberedFrom k (e ∷ es) last = (e.seq ≡ k +ℤ pos 1) × NumberedFrom (k +ℤ pos 1) es last

-- The change log has the sequences 1, 2, …, up to the counter, in order and without a gap.
abbrev pub IsNumbered : Database → Type 0
IsNumbered db = NumberedFrom (pos 0) db.change_log db.last_seq

numbered-append :
    (k last : ℤ) (es : List ChangeLogEntry) (e : ChangeLogEntry)
    → e.seq ≡ last +ℤ pos 1
    → NumberedFrom k es last
    → NumberedFrom k (es ++ e ∷ []) (last +ℤ pos 1)
numbered-append k last [] e seq h = (seq ∙ ap (λ x. x +ℤ pos 1) h, ap (λ x. x +ℤ pos 1) h)
numbered-append k last (x ∷ es) e seq h = (h.0, numbered-append (k +ℤ pos 1) last es e seq h.1)

step-IsNumbered : {db db' : Database} → DomainStep db db' → IsNumbered db → IsNumbered db'
step-IsNumbered {db} {db'} step h = go (step-SameLog step)
  where
    go : SameLog db db' → IsNumbered db'
    go same =
        subst (λ es. NumberedFrom (pos 0) es db'.last_seq) (sym same.0)
          (subst (NumberedFrom (pos 0) db.change_log) (sym same.1) h)

IsNumbered-Kept : Kept IsNumbered
IsNumbered-Kept = record {
  at_reservation = λ params db h. h;
  at_step = step-IsNumbered;
  at_entry = λ params db h.
      numbered-append (pos 0) db.last_seq db.change_log (next_entry params db) refl h;
  at_outcome = λ params db h. h;
}

IsConsistent-Kept : Kept IsConsistent
IsConsistent-Kept = record {
  at_reservation = λ params db c. record {
    distinct = c.distinct;
    referenced = c.referenced;
    projected = c.projected;
  };
  at_step = step-IsConsistent;
  at_entry = λ params db c. record {
    distinct = c.distinct;
    referenced = c.referenced;
    projected = c.projected;
  };
  at_outcome = λ params db c. record {
    distinct = c.distinct;
    referenced = c.referenced;
    projected = c.projected;
  };
}

abbrev GrownFrom : List StockMovement → Database → Type 0
GrownFrom ms db = Grows ms db.movements

++-assoc : {A : Type 0} (xs ys zs : List A) → (xs ++ ys) ++ zs ≡ xs ++ (ys ++ zs)
++-assoc [] ys zs = refl
++-assoc (x ∷ xs) ys zs = ap (λ ws. x ∷ ws) (++-assoc xs ys zs)

grown_trans : (ms ms' ms'' : List StockMovement) → Grows ms ms' → Grows ms' ms'' → Grows ms ms''
grown_trans ms ms' ms'' (front, e) (front', e') =
    (front' ++ front, e' ∙ ap (λ x. front' ++ x) e ∙ sym (++-assoc front' front ms))

GrownFrom-Kept : (ms : List StockMovement) → Kept (GrownFrom ms)
GrownFrom-Kept ms = record {
  at_reservation = λ params db h. h;
  at_step = λ {db} {db'} step h. grown_trans ms db.movements db'.movements h (step-Grows step);
  at_entry = λ params db h. h;
  at_outcome = λ params db h. h;
}

abbrev KeyedBalances : Database → Type 0
KeyedBalances db = DistinctBalances db.balances

KeyedBalances-Kept : Kept KeyedBalances
KeyedBalances-Kept = record {
  at_reservation = λ params db h. h;
  at_step = λ step h. step-DistinctBalances step h;
  at_entry = λ params db h. h;
  at_outcome = λ params db h. h;
}

-- If the projection has at most one row for each product, then so it has after any call.
pub run_operation-DistinctBalances :
    (codec : Codec) (now : Time) (identity : Identity) (o : Operation) (db : Database)
    → DistinctBalances db.balances
    → DistinctBalances (run_operation codec now identity o db).1.balances
run_operation-DistinctBalances codec now identity o =
    run_operation-Kept codec now identity o KeyedBalances KeyedBalances-Kept

-- Whatever operation a device sends, and whether it is applied, rejected, replayed or fails: from a
-- consistent database (distinct product keys, every movement of a present product, every projected
-- quantity and last instant equal to the sum and the latest instant of the ledger) the call leaves
-- a consistent database.
pub run_operation-IsConsistent :
    (codec : Codec) (now : Time) (identity : Identity) (o : Operation) (db : Database)
    → IsConsistent db
    → IsConsistent (run_operation codec now identity o db).1
run_operation-IsConsistent codec now identity o =
    run_operation-Kept codec now identity o IsConsistent IsConsistent-Kept

-- If the change log has the sequences 1, 2, … up to the counter, in order and without a gap, then
-- so does the change log after any call, failed ones included.
pub run_operation-IsNumbered :
    (codec : Codec) (now : Time) (identity : Identity) (o : Operation) (db : Database)
    → IsNumbered db
    → IsNumbered (run_operation codec now identity o db).1
run_operation-IsNumbered codec now identity o =
    run_operation-Kept codec now identity o IsNumbered IsNumbered-Kept

-- No call changes or removes a row of the movement ledger: the ledger after it is the ledger before
-- it with rows put in front.
pub run_operation-Grows :
    (codec : Codec) (now : Time) (identity : Identity) (o : Operation) (db : Database)
    → Grows db.movements (run_operation codec now identity o db).1.movements
run_operation-Grows codec now identity o db =
    run_operation-Kept codec now identity o (GrownFrom db.movements) (GrownFrom-Kept db.movements)
      db ([], refl)
