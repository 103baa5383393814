-- ===== src/Auth/Refresh.antt =====
-- The rotation of refresh tokens (server/internal/auth/service.go): what each branch leaves, and
-- that a token is spent once.
use stok_sync.Common.{
  some, true, false, String, is_some, ◌≡◌, refl, arith, ◌⊎◌, inl, inr, ◌∷◌, List, Bool-cases,
}
use stok_sync.Common.Int.{ltb_ℤ}
use stok_sync.Common.Text.{trim_space}
use stok_sync.Common.Lists.{exists_row, update_rows}
use stok_sync.Errors.{Time, AuthError, auth_error, no_rows, Error, Result, ok, err, Uuid}
use stok_sync.Db.Types.{Database, RefreshToken, CreateRefreshTokenParams}
use stok_sync.Db.Tx.{TxState, begin, and_then, with_tx_result, from_result, pure, statement, ◌>>=◌}
use stok_sync.Db.Tx.Ends.{
  Ends, Anyhow, then-Ends, Commits, with_tx_result-Commits, select_one-Reads, Reads-Split,
  Ends-mono,
}
use stok_sync.Db.Auth.{
  get_refresh_token_for_update, get_refresh_token_for_update_sql, fresh_token, insert_refresh_token,
  insert_refresh_token_sql, active_token, rotated, mark_refresh_token_rotated,
  mark_refresh_token_rotated_sql, revoked, of_token_id, revoke_refresh_token,
  revoke_refresh_token_sql, active_on, cut_off, revoke_device_refresh_tokens,
  revoke_device_refresh_tokens_sql, of_hash,
}
use stok_sync.Db.Products.{owns_device}
use stok_sync.Auth.{
  Session, TransactionOutcome, session, auth_err, Draws, Service, generated, new_session,
  hash_refresh_token, stored_token, rotate, store_rotation, refresh_found, refresh_in_transaction,
  refresh, answer, is_refresh_token_shape_valid,
}

abbrev pub with_tokens : List RefreshToken → Database → Database
with_tokens ts db = record db { refresh_tokens = ts }

-- The old token is spent and a new one stands in front.
abbrev pub after_rotation : RefreshToken → CreateRefreshTokenParams → Database → Database
after_rotation stored params db =
    with_tokens
      (fresh_token params db ∷ update_rows (active_token stored.id) (rotated db) db.refresh_tokens)
      db

abbrev pub after_reuse : RefreshToken → Database → Database
after_reuse stored db =
    with_tokens
      (update_rows (active_on stored.user_id stored.device_id) (cut_off db) db.refresh_tokens) db

abbrev pub after_revocation : RefreshToken → Database → Database
after_revocation stored db =
    with_tokens (update_rows (of_token_id stored.id) (revoked db) db.refresh_tokens) db

pub insert-Ends :
    (params : CreateRefreshTokenParams) (s : TxState)
    → Ends Anyhow
        (λ _ t.
          (t.db ≡ with_tokens (fresh_token params s.db ∷ s.db.refresh_tokens) s.db)
          × (exists_row (of_hash params.token_hash) s.db.refresh_tokens ≡ false)
          × (owns_device params.user_id params.device_id s.db.devices ≡ true))
        (insert_refresh_token params s)
unfolding insert_refresh_token statement insert_refresh_token_sql
insert-Ends params s = ground arith

mark-Ends :
    (id : Uuid) (s : TxState)
    → Ends Anyhow
        (λ _ t.
          t.db
          ≡ with_tokens (update_rows (active_token id) (rotated s.db) s.db.refresh_tokens) s.db)
        (mark_refresh_token_rotated id s)
unfolding mark_refresh_token_rotated statement mark_refresh_token_rotated_sql
mark-Ends id s = ground arith

revoke-Ends :
    (id : Uuid) (s : TxState)
    → Ends Anyhow
        (λ _ t.
          t.db ≡ with_tokens (update_rows (of_token_id id) (revoked s.db) s.db.refresh_tokens) s.db)
        (revoke_refresh_token id s)
unfolding revoke_refresh_token statement revoke_refresh_token_sql
revoke-Ends id s = ground arith

cut_off-Ends :
    (user device : Uuid) (s : TxState)
    → Ends Anyhow
        (λ _ t.
          t.db
          ≡ with_tokens
              (update_rows (active_on user device) (cut_off s.db) s.db.refresh_tokens)
              s.db)
        (revoke_device_refresh_tokens user device s)
unfolding revoke_device_refresh_tokens statement revoke_device_refresh_tokens_sql
cut_off-Ends user device s = ground arith

module _ (s : Service) (now : Time) (draws : Draws) where
  -- A session of the account and device of `user` and `device`, with the row that is stored for it.
  abbrev pub SessionFor : Uuid → Uuid → Session → CreateRefreshTokenParams → Type 0
  SessionFor user device issued params =
      (issued.user_id ≡ user)
      × (issued.device_id ≡ device)
      × (params ≡ stored_token s now draws user device issued.refresh_token)

  pub new_session-SessionFor :
      (user device : Uuid) (raw : String) (issued : Session) (params : CreateRefreshTokenParams)
      → new_session s now draws user device raw ≡ ok (issued, params)
      → SessionFor user device issued params
  unfolding new_session
  new_session-SessionFor user device raw issued params h = ground arith

  -- `stored` was found, was active, and had not expired; it is spent, and its replacement is stored.
  abbrev pub Rotated : RefreshToken → Database → Session → Database → Type 0
  Rotated stored db issued db' =
      (params : CreateRefreshTokenParams) × SessionFor stored.user_id stored.device_id issued params
      × (db' ≡ after_rotation stored params db)
      × (exists_row (of_hash params.token_hash)
            (update_rows (active_token stored.id) (rotated db) db.refresh_tokens)
          ≡ false)

  abbrev pub OfSession : (Session → Database → Type 0) → TransactionOutcome → Database → Type 0
  OfSession Q (session issued) d = Q issued d
  OfSession Q (auth_err e) d = ⊥

  store_rotation-Ends :
      (stored : RefreshToken) (t : TxState) (issued : Session) (params : CreateRefreshTokenParams)
      → SessionFor stored.user_id stored.device_id issued params
      → Ends Anyhow
          (λ o u. OfSession (Rotated stored t.db) o u.db)
          (store_rotation s now draws stored (issued, params) t)
  store_rotation-Ends stored t issued params made =
      then-Ends Anyhow (λ o u. OfSession (Rotated stored t.db) o u.db) _ _
        (mark_refresh_token_rotated stored.id t) (mark-Ends stored.id t)
        λ _ u marked.
          then-Ends Anyhow (λ o u. OfSession (Rotated stored t.db) o u.db) _
            (λ _. pure (session issued)) (insert_refresh_token params u) (insert-Ends params u)
            λ _ v inserted. (params, made, rw marked at inserted.0, rw marked at inserted.1)

  rotate-Ends :
      (stored : RefreshToken) (t : TxState)
      → Ends Anyhow (λ o u. OfSession (Rotated stored t.db) o u.db) (rotate s now draws stored t)
  rotate-Ends stored t = go (generated s draws)
    where
      next :
          (raw : String) (r : Result (Session × CreateRefreshTokenParams))
          → new_session s now draws stored.user_id stored.device_id raw ≡ r
          → Ends Anyhow
              (λ o u. OfSession (Rotated stored t.db) o u.db)
              (and_then (store_rotation s now draws stored) (r, t))
      next raw (err e) h = tt
      next raw (ok (issued, params)) h =
          store_rotation-Ends stored t issued params
            (new_session-SessionFor stored.user_id stored.device_id raw issued params h)

      go :
          (r : Result String)
          → Ends Anyhow
              (λ o u. OfSession (Rotated stored t.db) o u.db)
              (and_then
                (λ raw.
                  from_result (new_session s now draws stored.user_id stored.device_id raw)
                  >>= store_rotation s now draws stored)
                (r, t))
      go (err e) = tt
      go (ok raw) = next raw (new_session s now draws stored.user_id stored.device_id raw) refl

  -- What a call leaves: on a session, a rotation of an active token that has not expired; on an error,
  -- nothing, or the revocation that a spent or an expired token asks for.
  abbrev pub Spent : String → Error → Database → Database → Type 0
  Spent hash e db db' =
      (stored : RefreshToken) × (get_refresh_token_for_update_sql hash db ≡ some stored)
      × (is_some stored.revoked_at ≡ true)
      × (e ≡ auth_error AuthError.refresh_token_reuse)
      × (db' ≡ after_reuse stored db)

  abbrev pub Expired : String → Error → Database → Database → Type 0
  Expired hash e db db' =
      (stored : RefreshToken) × (get_refresh_token_for_update_sql hash db ≡ some stored)
      × (is_some stored.revoked_at ≡ false)
      × (ltb_ℤ now stored.expires_at ≡ false)
      × (e ≡ auth_error AuthError.refresh_token_expired)
      × (db' ≡ after_revocation stored db)

  abbrev pub Renewed : String → Session → Database → Database → Type 0
  Renewed hash issued db db' =
      (stored : RefreshToken) × (get_refresh_token_for_update_sql hash db ≡ some stored)
      × (is_some stored.revoked_at ≡ false)
      × (ltb_ℤ now stored.expires_at ≡ true)
      × Rotated stored db issued db'

  abbrev pub Refreshed : String → Database → Result Session × Database → Type 0
  Refreshed hash db (ok issued, db') = Renewed hash issued db db'
  Refreshed hash db (err e, db') = (db' ≡ db) ⊎ Spent hash e db db' ⊎ Expired hash e db db'

  abbrev Decided : String → Database → TransactionOutcome → Database → Type 0
  Decided hash db (session issued) d = Renewed hash issued db d
  Decided hash db (auth_err e) d =
      (d ≡ db) ⊎ Spent hash (auth_error e) db d ⊎ Expired hash (auth_error e) db d

  missing-Ends :
      (hash : String) (e : Error) (t : TxState)
      → Ends Anyhow (λ o u. Decided hash t.db o u.db) (refresh_found s now draws (err e) t)
  missing-Ends hash no_rows t = inl refl
  missing-Ends hash _ t = tt

  found-Ends :
      (hash : String) (stored : RefreshToken) (t : TxState)
      → get_refresh_token_for_update_sql hash t.db ≡ some stored
      → Ends Anyhow (λ o u. Decided hash t.db o u.db) (refresh_found s now draws (ok stored) t)
  found-Ends hash stored t found = elim (Bool-cases (is_some stored.revoked_at)) [
    | inl spent ↦ rw spent (
        then-Ends Anyhow (λ o u. Decided hash t.db o u.db) _ _
          (revoke_device_refresh_tokens stored.user_id stored.device_id t)
          (cut_off-Ends stored.user_id stored.device_id t)
          λ _ u cut. inr (inl (stored, found, spent, refl, cut)))
    | inr active ↦ elim (Bool-cases (ltb_ℤ now stored.expires_at)) [
      | inr late ↦
          rw (active, late)
            (then-Ends Anyhow (λ o u. Decided hash t.db o u.db) _ _
              (revoke_refresh_token stored.id t) (revoke-Ends stored.id t)
              λ _ u cut. inr (inr (stored, found, active, late, refl, cut)))
      | inl early ↦
          rw (active, early)
            (Ends-mono Anyhow (λ o u. OfSession (Rotated stored t.db) o u.db)
              (λ o u. Decided hash t.db o u.db) (rotate s now draws stored t) (rotate-Ends stored t)
              (renewed hash stored t found active early))
    ]
  ]
    where
      renewed :
          (hash : String) (stored : RefreshToken) (t : TxState)
          → get_refresh_token_for_update_sql hash t.db ≡ some stored
          → is_some stored.revoked_at ≡ false
          → ltb_ℤ now stored.expires_at ≡ true
          → (o : TransactionOutcome) (u : TxState) → OfSession (Rotated stored t.db) o u.db
          → Decided hash t.db o u.db
      renewed hash stored t found active early (session issued) u h =
          (stored, found, active, early, h)
      renewed hash stored t found active early (auth_err e) u h = elim h [ ]

  refresh-Ends :
      (raw : String) (t : TxState)
      → Ends Anyhow
          (λ o u. Decided (hash_refresh_token s raw) t.db o u.db)
          (refresh_in_transaction s now draws raw t)
  unfolding refresh_in_transaction get_refresh_token_for_update
  refresh-Ends raw t =
      elim (Reads-Split _ t _
        (select_one-Reads (get_refresh_token_for_update_sql (hash_refresh_token s raw)) t)) [
          | inr (e, failed) ↦ rw failed (missing-Ends (hash_refresh_token s raw) e t)
          | inl (stored, read, found) ↦
              rw read (found-Ends (hash_refresh_token s raw) stored t found)
        ]

  abbrev hash_of : String → String
  hash_of raw = hash_refresh_token s (trim_space raw)

  -- Whatever the token: a session means that the stored token was active and had not expired, that it
  -- is spent now, and that its replacement, under another digest, is stored for the same account and
  -- device. An error leaves the database, or it is the reuse of a spent token and every active
  -- token of the device is revoked, or it is the expiry of the token and the token is revoked.
  pub refresh-Refreshed :
      (raw : String) (db : Database)
      → Refreshed (hash_refresh_token s (trim_space raw)) db (refresh s now draws raw db)
  unfolding refresh
  refresh-Refreshed raw db = elim (Bool-cases (is_refresh_token_shape_valid s (trim_space raw))) [
    | inr odd ↦ rw odd (inl refl)
    | inl shaped ↦ rw shaped (
        answered (with_tx_result (refresh_in_transaction s now draws (trim_space raw)) db) (
          with_tx_result-Commits Anyhow (Decided (hash_of raw) db)
            (refresh_in_transaction s now draws (trim_space raw)) db
            (refresh-Ends (trim_space raw) (begin db))))
  ]
    where
      answered :
          (r : Result TransactionOutcome × Database)
          → Commits (Decided (hash_of raw) db) db r
          → Refreshed (hash_of raw) db (answer s now draws r)
      answered (ok (session issued), d) h = h
      answered (ok (auth_err e), d) h = h
      answered (err e, d) h = inl h
