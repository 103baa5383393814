-- ===== src/Auth/Later.antt =====
-- A spent refresh token after any number of other calls of the service (server/internal/auth/service.go).
use stok_sync.Common.{
  true, String, ◌≡◌, refl, sym, subst, List, [], ◌∷◌, Bool-cases, Option-cases, inl, inr, ◌==◌,
  ◌||◌,
}
use stok_sync.Common.Text.{trim_space}
use stok_sync.Errors.{Uuid, Time, AuthError, auth_error, Result, ok, err}
use stok_sync.Db.Types.{Database}
use stok_sync.Db.Tx.{with_tx_result, select_one, statement}
use stok_sync.Db.Tx.Ends.{Commits}
use stok_sync.Db.Auth.{
  get_refresh_token_for_update, get_refresh_token_for_update_sql, of_token_id, rotated, revoked,
  cut_off, active_on, active_token, revoke_refresh_token, revoke_refresh_token_sql,
  revoke_device_refresh_tokens, revoke_device_refresh_tokens_sql,
}
use stok_sync.Auth.{
  Service, Draws, Session, LoginInput, is_refresh_token_shape_valid, register, login, refresh,
  revoke_token, revoke_device_sessions,
}
use stok_sync.Auth.Refresh.{Refreshed, refresh-Refreshed, after_reuse}
use stok_sync.Auth.Reuse.{
  hash_of, CutOff, cut_off-All, spent-refresh, refresh-shaped, Renewed-find, find-of_token_id,
  digest-find,
}
use stok_sync.Auth.Accounts.{
  Issued, LoggedIn, login-LoggedIn, Registered, register-Registered, with_account, new_account,
}
use stok_sync.Auth.Spent.{
  TokensStep, IsSpent, step-IsSpent, rotated-Marks, revoked-Marks, cut_off-Marks,
}

-- A call of the auth service, with the instant and the draws of its request.
pub data AuthCall : Type 0 where
  registers : Time → Draws → LoginInput → AuthCall
  logs_in : Time → Draws → LoginInput → AuthCall
  refreshes : Time → Draws → String → AuthCall
  revokes : String → AuthCall
  revokes_device : Uuid → Uuid → AuthCall

-- The database after the call.
abbrev pub after_call : Service → AuthCall → Database → Database
after_call s (AuthCall.registers now draws input) db = (register s now draws input db).1
after_call s (AuthCall.logs_in now draws input) db = (login s now draws input db).1
after_call s (AuthCall.refreshes now draws raw) db = (refresh s now draws raw db).1
after_call s (AuthCall.revokes raw) db = (revoke_token s raw db).1
after_call s (AuthCall.revokes_device user device) db = (revoke_device_sessions user device db).1

abbrev pub after_auth_calls : Service → List AuthCall → Database → Database
after_auth_calls s [] db = db
after_auth_calls s (c ∷ cs) db = after_auth_calls s cs (after_call s c db)

abbrev Steps : Database → Database → Type 0
Steps db db' = TokensStep db.refresh_tokens db'.refresh_tokens

unchanged-Steps : (db db' : Database) → db' ≡ db → Steps db db'
unchanged-Steps db db' same = rw same (TokensStep.unchanged db.refresh_tokens)

module _ (s : Service) where
  Issued-Steps :
      (now : Time) (draws : Draws) (user : Uuid) (input : LoginInput) (db db' : Database)
      (issued : Session)
      → Issued s now draws user input db issued db'
      → Steps db db'
  Issued-Steps now draws user input db db' issued (params, made, users, tokens, owned, new) =
      rw tokens (TokensStep.issued params db db.refresh_tokens new)

  Registered-Steps :
      (now : Time) (draws : Draws) (raw : LoginInput) (db : Database)
      (r : Result Session × Database)
      → Commits (Registered s now draws raw db) db r
      → Steps db r.1
  Registered-Steps now draws raw db (err e, d) same = unchanged-Steps db d same
  Registered-Steps now draws raw db (ok issued, d) (input, hash, norm, long, hashed, new, added) =
      Issued-Steps now draws draws.user_id input
        (with_account (new_account s now draws input hash) db) d issued added

  LoggedIn-Steps :
      (now : Time) (draws : Draws) (raw : LoginInput) (db : Database)
      (r : Result Session × Database)
      → Commits (LoggedIn s now draws raw db) db r
      → Steps db r.1
  LoggedIn-Steps now draws raw db (err e, d) same = unchanged-Steps db d same
  LoggedIn-Steps now draws raw db (ok issued, d) (input, user, norm, found, right, added) =
      Issued-Steps now draws user.id input db d issued added

  Refreshed-Steps :
      (now : Time) (draws : Draws) (hash : String) (db : Database) (r : Result Session × Database)
      → Refreshed s now draws hash db r
      → Steps db r.1
  Refreshed-Steps now draws hash db (ok issued, d)
        (stored, found, active, early, (params, made, after, new)) =
      rw after (
        TokensStep.both
          (TokensStep.marked (active_token stored.id) (rotated db) db.refresh_tokens
            (rotated-Marks db))
          (TokensStep.issued params db _ new))
  Refreshed-Steps now draws hash db (err e, d) (inl same) = unchanged-Steps db d same
  Refreshed-Steps now draws hash db (err e, d) (inr (inl (stored, found, spent, answer, after))) =
      rw after (
        TokensStep.marked (active_on stored.user_id stored.device_id) (cut_off db) db.refresh_tokens
          (cut_off-Marks db))
  Refreshed-Steps now draws hash db (err e, d)
        (inr (inr (stored, found, active, late, answer, after))) =
      rw after (
        TokensStep.marked (of_token_id stored.id) (revoked db) db.refresh_tokens (revoked-Marks db))

  revoke_token-Steps : (raw : String) (db : Database) → Steps db (revoke_token s raw db).1
  unfolding revoke_token with_tx_result get_refresh_token_for_update select_one statement
      revoke_refresh_token revoke_refresh_token_sql
  revoke_token-Steps raw db = elim (Bool-cases (is_refresh_token_shape_valid s (trim_space raw))) [
    | inr odd ↦ rw odd (TokensStep.unchanged db.refresh_tokens)
    | inl shaped ↦ elim (Option-cases (get_refresh_token_for_update_sql (hash_of s raw) db)) [
      | inl unknown ↦ rw (shaped, unknown) (TokensStep.unchanged db.refresh_tokens)
      | inr (t, found) ↦
          let (u, row) =
            find-of_token_id (hash_of s raw) db.refresh_tokens t
              (digest-find s (hash_of s raw) db t found) in
          rw (shaped, found, row)
            (TokensStep.marked (of_token_id t.id) (revoked db) db.refresh_tokens (revoked-Marks db))
    ]
  ]

  revoke_device-Steps :
      (user device : Uuid) (db : Database) → Steps db (revoke_device_sessions user device db).1
  unfolding revoke_device_sessions with_tx_result statement revoke_device_refresh_tokens
      revoke_device_refresh_tokens_sql
  revoke_device-Steps user device db = elim (Bool-cases (user == 0 || device == 0)) [
    | inl nobody ↦ rw nobody (TokensStep.unchanged db.refresh_tokens)
    | inr known ↦ rw known (
        TokensStep.marked (active_on user device) (cut_off db) db.refresh_tokens (cut_off-Marks db))
  ]

  call-Steps : (c : AuthCall) (db : Database) → Steps db (after_call s c db)
  call-Steps (AuthCall.registers now draws input) db =
      Registered-Steps now draws input db (register s now draws input db)
        (register-Registered s now draws input db)
  call-Steps (AuthCall.logs_in now draws input) db =
      LoggedIn-Steps now draws input db (login s now draws input db)
        (login-LoggedIn s now draws input db)
  call-Steps (AuthCall.refreshes now draws raw) db =
      Refreshed-Steps now draws (hash_of s raw) db (refresh s now draws raw db)
        (refresh-Refreshed s now draws raw db)
  call-Steps (AuthCall.revokes raw) db = revoke_token-Steps raw db
  call-Steps (AuthCall.revokes_device user device) db = revoke_device-Steps user device db

  calls-Steps : (cs : List AuthCall) (db : Database) → Steps db (after_auth_calls s cs db)
  calls-Steps [] db = TokensStep.unchanged db.refresh_tokens
  calls-Steps (c ∷ cs) db = TokensStep.both (call-Steps c db) (calls-Steps cs (after_call s c db))

  refresh-IsSpent :
      (now : Time) (draws : Draws) (raw : String) (db db' : Database) (issued : Session)
      → refresh s now draws raw db ≡ (ok issued, db')
      → IsSpent (hash_of s raw) issued.user_id issued.device_id db'.refresh_tokens
  refresh-IsSpent now draws raw db db' issued h =
      let (stored, found, user, device) = Renewed-find s now draws (hash_of s raw) db db' issued (
        subst (Refreshed s now draws (hash_of s raw) db) h
          (refresh-Refreshed s now draws raw db)) in
      (
        rotated db stored,
        digest-find s (hash_of s raw) db' (rotated db stored) found,
        sym user,
        sym device,
        refl,
      )

  IsSpent-refresh :
      (now : Time) (draws : Draws) (raw : String) (db : Database) (user device : Uuid)
      → is_refresh_token_shape_valid s (trim_space raw) ≡ true
      → IsSpent (hash_of s raw) user device db.refresh_tokens
      → (db' : Database) × (refresh s now draws raw db
          ≡ (err (auth_error AuthError.refresh_token_reuse), db'))
        × CutOff s user device db'
  unfolding get_refresh_token_for_update_sql
  IsSpent-refresh now draws raw db user device shaped (stored, found, owner, on, spent) = (
    after_reuse stored db,
    spent-refresh s now draws raw db stored shaped found spent,
    rw (sym owner, sym on) (cut_off-All stored.user_id stored.device_id db db.refresh_tokens),
  )

  -- After a refresh that succeeded, and any further calls of the service (registrations, logins,
  -- refreshes and revocations, of whatever accounts, at whatever instants and with whatever draws),
  -- a refresh with the same token is refused as reused, and then no token of the session's account
  -- and device is active.
  pub refresh_again :
      (now now' : Time) (draws draws' : Draws) (raw : String) (calls : List AuthCall)
      (db db' : Database) (issued : Session)
      → refresh s now draws raw db ≡ (ok issued, db')
      → (db'' : Database) × (refresh s now' draws' raw (after_auth_calls s calls db')
          ≡ (err (auth_error AuthError.refresh_token_reuse), db''))
        × CutOff s issued.user_id issued.device_id db''
  refresh_again now now' draws draws' raw calls db db' issued h =
      IsSpent-refresh now' draws' raw (after_auth_calls s calls db') issued.user_id issued.device_id
        (refresh-shaped s now draws raw db db' issued h)
        (step-IsSpent (hash_of s raw) issued.user_id issued.device_id (calls-Steps calls db')
          (refresh-IsSpent now draws raw db db' issued h))
