-- ===== src/Sync/Handler/Exchange.antt =====
-- What an exchange (server/internal/sync/handler.go) keeps, and what it answers.
use stok_sync.Common.{
  Option, none, some, true, ◌||◌, List, [], ◌∷◌, map, ◌≡◌, refl, ap, sym, subst, ◌∙◌, arith, ◌==◌,
  leb, ℕ, suc, ◌⊎◌, Bool-cases, inl, inr, String, ==_lem, ap₂,
}
use stok_sync.Common.Int.{ℤ}
use stok_sync.Errors.{Uuid, Time, Result, ok, err}
use stok_sync.Db.Types.{Database, Device}
use stok_sync.Db.Tx.{with_snapshot_result, select_rows}
use stok_sync.Db.ChangeLog.{list_change_log}
use stok_sync.Consistency.{IsConsistent, DistinctBalances}
use stok_sync.Sync.Dto.{Codec, Operation, OperationResult, SyncRequest}
use stok_sync.Sync.Limits.{Checked, valid, rejected, Limits}
use stok_sync.Sync.Operations.{Identity}
use stok_sync.Sync.Process.{run_operation}
use stok_sync.Sync.Process.Guarantees.{
  IsNumbered, run_operation-IsConsistent, run_operation-IsNumbered, run_operation-DistinctBalances,
}
use stok_sync.Sync.Feed.{ChangeFeed, validate_device, list_changes}
use stok_sync.Sync.Feed.Devices.{device_row, validate_device_lem, validate_device-registered}
use stok_sync.Sync.Request.{Body, decode_request, encode_response}
use stok_sync.Sync.Response.{new_sync_response}
use stok_sync.Sync.Handler.{
  Reply, failure, success, result_of, run_operations, exchange_changes, exchange_operations,
  write_device_validation_error, write_sync_request_error, exchange_decoded, answered, encoded,
  post, ops_of, write_sync_error,
}

validate_device-reads :
    (user device : Uuid) (db : Database) → (validate_device user device db).1 ≡ db
unfolding validate_device
validate_device-reads user device db = elim (Bool-cases (user == 0 || device == 0)) [
  | inl nil ↦ rw nil refl
  | inr known ↦ ap (λ r. r.1) (validate_device_lem user device db known)
]

result_of-op_id : (o : Operation) (r : Result OperationResult) → (result_of o r).op_id ≡ o.op_id
result_of-op_id o r = ground arith

list_changes-reads :
    (user : Uuid) (after_seq max_changes : ℤ) (db : Database)
    → (list_changes user after_seq max_changes db).1 ≡ db
unfolding list_changes with_snapshot_result list_change_log select_rows
list_changes-reads user after_seq max_changes db = ground arith

module _ (codec : Codec) (now : ℕ → Time) (meanwhile : ℕ → Database → Database) where
  answered-reads :
      (limits : Limits) (results : List OperationResult) (feed : Result ChangeFeed × Database)
      → (answered codec now meanwhile limits results feed).1 ≡ feed.1
  answered-reads limits results (ok feed, db) = refl
  answered-reads limits results (err e, db) = refl

  -- A property of the database that every call and every other session keeps.
  module _ (P : Database → Type 0)
      (runs : (t : Time) (identity : Identity) (o : Operation) (db : Database)
        → P db
        → P (run_operation codec t identity o db).1)
      (others : (n : ℕ) (db : Database) → P db → P (meanwhile n db)) where
    run_operations-keeps :
        (identity : Identity) (n : ℕ) (os : List Operation) (db : Database)
        → P db
        → P (run_operations codec now meanwhile identity n os db).1
    unfolding run_operations
    run_operations-keeps identity n [] db h = h
    run_operations-keeps identity n (o ∷ os) db h =
        run_operations-keeps identity (suc n) os _
          (runs (now n) identity o (meanwhile n db) (others n db h))

    exchange_changes-keeps :
        (limits : Limits) (identity : Identity) (r : SyncRequest)
        (done : List OperationResult × Database)
        → P done.1
        → P (exchange_changes codec now meanwhile limits identity r done).1
    exchange_changes-keeps limits identity r (results, db) h =
        subst P
          (sym (
            answered-reads limits results
              (list_changes identity.user_id r.cursor r.max_changes (meanwhile 1 db))
            ∙ list_changes-reads identity.user_id r.cursor r.max_changes (meanwhile 1 db)))
          (others 1 db h)

    exchange_operations-keeps :
        (limits : Limits) (identity : Identity) (r : SyncRequest) (d : Result Device × Database)
        → P d.1
        → P (exchange_operations codec now meanwhile limits identity r d).1
    exchange_operations-keeps limits identity r (err e, db) h = h
    exchange_operations-keeps limits identity r (ok device, db) h =
        exchange_changes-keeps limits identity r
          (run_operations codec now meanwhile identity 2 (ops_of codec now meanwhile r.ops) db)
          (run_operations-keeps identity 2 (ops_of codec now meanwhile r.ops) db h)

    exchange_decoded-keeps :
        (limits : Limits) (identity : Identity) (c : Checked SyncRequest) (db : Database)
        → P db
        → P (exchange_decoded codec now meanwhile limits identity c db).1
    exchange_decoded-keeps limits identity (rejected e) db h = h
    exchange_decoded-keeps limits identity (valid r) db h =
        elim (Bool-cases (r.device_id == identity.device_id)) [
          | inr other ↦ rw other h
          | inl same ↦ rw same (
              exchange_operations-keeps limits identity r
                (validate_device identity.user_id r.device_id db)
                (subst P (sym (validate_device-reads identity.user_id r.device_id db)) h))
        ]

    post-keeps :
        (limits : Limits) (identity : Option Identity) (body : Body) (db : Database)
        → P db
        → P (post codec now meanwhile limits identity body db).1
    unfolding post
    post-keeps limits none body db h = h
    post-keeps limits (some identity) body db h =
        exchange_decoded-keeps limits identity (decode_request codec (limits ∷ []) body) db h

  -- Whatever a device sends, and whatever the exchange answers: if the other sessions keep consistency, one
  -- projection row for each product, and the numbering of the change log, then so does the exchange.
  pub post-IsConsistent :
      (limits : Limits) (identity : Option Identity) (body : Body) (db : Database)
      → ((n : ℕ) (d : Database) → IsConsistent d → IsConsistent (meanwhile n d))
      → ((n : ℕ) (d : Database)
          → DistinctBalances d.balances
          → DistinctBalances (meanwhile n d).balances)
      → ((n : ℕ) (d : Database) → IsNumbered d → IsNumbered (meanwhile n d))
      → IsConsistent db
      → DistinctBalances db.balances
      → IsNumbered db
      → IsConsistent (post codec now meanwhile limits identity body db).1
        × DistinctBalances (post codec now meanwhile limits identity body db).1.balances
        × IsNumbered (post codec now meanwhile limits identity body db).1
  post-IsConsistent limits identity body db agree unique order consistent keyed numbered = (
    post-keeps IsConsistent (run_operation-IsConsistent codec) agree limits identity body db
        consistent,
    post-keeps (λ d. DistinctBalances d.balances) (run_operation-DistinctBalances codec) unique
        limits identity body db keyed,
    post-keeps IsNumbered (run_operation-IsNumbered codec) order limits identity body db numbered,
  )

  -- Each operation has one result, under its identifier, in the order of the request.
  run_operations-op_id :
      (identity : Identity) (n : ℕ) (os : List Operation) (db : Database)
      → map (λ r. r.op_id) (run_operations codec now meanwhile identity n os db).0
        ≡ map (λ o. o.op_id) os
  unfolding run_operations
  run_operations-op_id identity n [] db = refl
  run_operations-op_id identity n (o ∷ os) db =
      ap₂ (λ i is. i ∷ is) (result_of-op_id o _) (run_operations-op_id identity (suc n) os _)

  -- What an exchange that succeeds was: of a registered device of the account, with one result for each
  -- operation, under its identifier and in the order of the request.
  abbrev pub Exchanged : Limits → Option Identity → Body → Database → String → Type 0
  Exchanged limits identity body db text =
      (i : Identity) × (r : SyncRequest) × (device : Device) × (results : List OperationResult)
      × (feed : ChangeFeed) × (identity ≡ some i)
      × (decode_request codec (limits ∷ []) body ≡ valid r)
      × (r.device_id ≡ i.device_id)
      × (device_row i.user_id r.device_id db ≡ some device)
      × (results ≡ (run_operations codec now meanwhile i 2 (ops_of codec now meanwhile r.ops) db).0)
      × (map (λ x. x.op_id) results ≡ map (λ o. o.op_id) (ops_of codec now meanwhile r.ops))
      × (encode_response codec
            (new_sync_response results feed.changes feed.next_cursor feed.has_more (now 0))
            (limits ∷ [])
          ≡ valid (some text))

  abbrev pub Explained : Limits → Option Identity → Body → Database → Reply × Database → Type 0
  Explained limits identity body db (success text, db') = Exchanged limits identity body db text
  Explained limits identity body db (failure status e, db') = (db' ≡ db) ⊎ (leb 500 status ≡ true)

  module _ (limits : Limits) (i : Identity) (body : Body) (db : Database) where
    encoded-Explained :
        (c : Checked (Option String)) (d : Database)
        → ((text : String) → c ≡ valid (some text) → Exchanged limits (some i) body db text)
        → Explained limits (some i) body db (encoded codec now meanwhile c, d)
    unfolding write_sync_error
    encoded-Explained (rejected e) d made = inr refl
    encoded-Explained (valid none) d made = inr refl
    encoded-Explained (valid (some text)) d made = made text refl

    answered-Explained :
        (r : SyncRequest) (device : Device) (results : List OperationResult)
        (feed : Result ChangeFeed × Database)
        → decode_request codec (limits ∷ []) body ≡ valid r
        → r.device_id ≡ i.device_id
        → device_row i.user_id r.device_id db ≡ some device
        → results ≡ (run_operations codec now meanwhile i 2 (ops_of codec now meanwhile r.ops) db).0
        → Explained limits (some i) body db (answered codec now meanwhile limits results feed)
    unfolding write_sync_error
    answered-Explained r device results (err e, d) decodes same registered run = inr refl
    answered-Explained r device results (ok feed, d) decodes same registered run =
        encoded-Explained _ d λ text made. (
          i,
          r,
          device,
          results,
          feed,
          refl,
          decodes,
          same,
          registered,
          run,
          ap (map λ x. x.op_id) run
              ∙ run_operations-op_id i 2 (ops_of codec now meanwhile r.ops) db,
          made,
        )

    operations-Explained :
        (r : SyncRequest) (v : Result Device × Database)
        → decode_request codec (limits ∷ []) body ≡ valid r
        → r.device_id ≡ i.device_id
        → validate_device i.user_id r.device_id db ≡ v
        → Explained limits (some i) body db (exchange_operations codec now meanwhile limits i r v)
    unfolding write_device_validation_error write_sync_error
    operations-Explained r (err e, d) decodes same valid_device =
        inl (sym (ap (λ v. v.1) valid_device) ∙ validate_device-reads i.user_id r.device_id db)
    operations-Explained r (ok device, d) decodes same valid_device =
        answered-Explained r device _ _ decodes same
          (validate_device-registered i.user_id r.device_id db d device valid_device)
          (ap (λ x. (run_operations codec now meanwhile i 2 (ops_of codec now meanwhile r.ops) x).0)
            (sym (ap (λ v. v.1) valid_device) ∙ validate_device-reads i.user_id r.device_id db))

  -- A failure leaves the database, or its status is 500 or more. A success was of an authenticated identity and
  -- an accepted request of its own device, which is registered with its account; its body encodes
  -- the results of the operations, run one after the other, each under its operation's identifier
  -- and in the order of the request.
  pub post-Explained :
      (limits : Limits) (identity : Option Identity) (body : Body) (db : Database)
      → Explained limits identity body db (post codec now meanwhile limits identity body db)
  unfolding post write_sync_error write_sync_request_error
  post-Explained limits none body db = inl refl
  post-Explained limits (some i) body db = go (decode_request codec (limits ∷ []) body) refl
    where
      go :
          (c : Checked SyncRequest)
          → decode_request codec (limits ∷ []) body ≡ c
          → Explained limits (some i) body db (exchange_decoded codec now meanwhile limits i c db)
      go (rejected e) decodes = inl refl
      go (valid r) decodes = elim (Bool-cases (r.device_id == i.device_id)) [
        | inr other ↦ rw other (inl refl)
        | inl same ↦ rw same (
            operations-Explained limits i body db r (validate_device i.user_id r.device_id db)
              decodes (==_lem r.device_id i.device_id same) refl)
      ]
