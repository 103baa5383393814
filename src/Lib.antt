-- ===== src/Lib.antt =====
-- The server of StokSync, an offline-first stock keeper: devices record movements and catalog edits
-- while they are offline and send them later, and the server decides each one exactly once, keeps an
-- append-only ledger of movements with a balance per product, and numbers every accepted change, so
-- that the other devices can follow.
--
-- Which file models which part (paths from the root of the repository):
--   Errors          the error values of the packages products, movements, sync, auth and snapshot, as
--                   one type.
--   Db/Types        server/internal/db/models.go and auth_models.go, and the
--                   tables as one record `Database`.
--   Db/Tx           server/internal/db/tx.go: WithTxResult and WithSnapshotResult. `Tx A` is a callback
--                   on the open transaction. A failed statement aborts it until a rollback to the
--                   savepoint, and a transaction that fails or is aborted leaves the database.
--   Db/Products, Db/Movements, Db/Balances, Db/ChangeLog, Db/SyncOps
--                   the statements of server/internal/db/queries.go. `name_sql` is the SQL constant
--                   `nameSQL` as a function of the tables, and `name` is the method that runs it.
--   Products        server/internal/products/service.go: create, version-checked update, soft delete.
--   Movements       server/internal/movements/service.go: normalization of an input and the append,
--                   with the stocktake policy on (synchronization) or off (`AppendMovement`).
--   Movements/Projection, Movements/Reversal
--                   the other operations of that file: `VerifyProductBalances` and its comparison,
--                   `RebuildProductBalances` as `rebuild_balances`, `ReverseMovement` and
--                   `RecordStocktake`.
--   Sync/Dto, Sync/Limits, Sync/Validate, Sync/Response
--                   server/internal/sync/dto.go: the wire types, limits and validation.
--   Sync/Operations server/internal/sync/operations.go: `applyOperation` and what it calls.
--   Sync/Process    `processOperation` and `replayStoredOperation` of the same file, and
--                   `ProcessOperation` of server/internal/sync/service.go as `run_operation`.
--   Sync/Feed       `ValidateDevice` and `ListChanges` of server/internal/sync/service.go.
--   Db/Auth         the statements of server/internal/db/auth_queries.go.
--   Auth, Auth/Token, Auth/Password, Auth/External
--                   server/internal/auth: service.go, token.go and password.go, and what they call of
--                   other packages as the record `Libraries`. `Draws` is what one request draws at
--                   random, and `revoke_token` is the service's `RevokeRefreshToken`.
--   Sync/Request    `DecodeRequest`, `EncodeResponse` and `ErrorResponseFor` of dto.go.
--   Sync/Handler    the exchange of server/internal/sync/handler.go: `post`, with what other sessions
--                   commit between its transactions as the parameter `meanwhile`.
--   Db/Snapshot, Snapshot
--                   the bounded statements of a snapshot, and server/internal/snapshot: service.go, and
--                   handler.go as Snapshot/Handler.
--   Consistency     the invariant that the services keep together, and the four mutations of the
--                   catalog and the ledger as one step relation.
--
-- How they interact: `post` decodes and checks a request, runs its operations one after the other,
-- each with `run_operation`, and answers their results with a page of the change feed; a device that
-- starts takes a snapshot and follows the feed from its cursor. `run_operation` runs `process_operation` in one transaction. It reserves the
-- idempotency key, applies the operation through the catalog or the movement service, which write
-- through the statements of Db, appends the change to the log and stores the outcome with the key. A
-- key that is there already is answered from the stored outcome. Errors of the services are values,
-- which `rejected_for_domain_error` turns into durable rejections; any other error rolls back.
--
-- What the model fixes: a UUID is the number of its 16 bytes, a time an instant in microseconds
-- since Go's zero time, PostgreSQL's resolution, and a JSON text a string. int32 and int64 values are
-- integers; where Go computes in 64 bits with values that the code does not bound (a stocktake's
-- difference and the balance it reports) the wrap-around is written out. The sums and the counter
-- that PostgreSQL computes do not wrap; it would raise an error at 2^63. All loops are structural, so
-- no fuel is used. Each transaction runs alone on the database, which row locks and the unique keys
-- bring about for the ones that touch the same rows.
--
-- What is a parameter: `Codec` is encoding/json at the types that the package sync encodes and
-- strictly decodes, and `encode` its encoder at a snapshot's response; `Libraries` is bcrypt,
-- SHA-256, HMAC, base64, encoding/json at the parts of an access token, mail.ParseAddress, uuid's
-- texts, strings.ToLower and PostgreSQL's lower; `now` is the service's clock, read once in a
-- request of the auth service and once before each operation of an exchange. CURRENT_TIMESTAMP is
-- the field `clock` of `Database`, and the text in which PostgreSQL gives back a value that was stored in
-- a JSONB column (sync_ops.response, change_log.payload) its field `jsonb`: the value is kept, the
-- order of keys and the white space are not.
--
-- Not modelled: routing, headers and logging of the handlers, the handler and the middleware of
-- server/internal/auth, the pool, configuration, the scanning of driver types; and the client
-- application.
pub mod Common
pub mod Errors
pub mod Db
pub mod Products
pub mod Movements
pub mod Consistency
pub mod Sync
pub mod Auth
pub mod Snapshot
pub mod Tests
