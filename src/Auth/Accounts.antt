-- ===== src/Auth/Accounts.antt =====
-- Registration and login (server/internal/auth/service.go): what a session was issued on.
use stok_sync.Common.{
  Option, none, some, Bool, true, false, String, ◌≡◌, refl, ap, sym, arith, subst, ◌∙◌, ◌∷◌, List,
  Bool-cases, inl, inr, ltb,
}
use Prim.Native.String.{len}
use stok_sync.Common.Text.{str_eq}
use stok_sync.Common.Lists.{exists_row}
use stok_sync.Errors.{Uuid, Time, no_rows, Result, ok, err}
use stok_sync.Db.Types.{
  Database, User, Device, CreateUserParams, RegisterDeviceParams, CreateRefreshTokenParams,
}
use stok_sync.Db.Tx.{TxState, begin, and_then, with_tx_result, from_result, pure, statement, ◌>>=◌}
use stok_sync.Db.Tx.Ends.{Ends, Anyhow, then-Ends, Commits, with_tx_result-Commits}
use stok_sync.Db.Products.{owns_device}
use stok_sync.Db.Auth.{
  insert_refresh_token, fresh_token, register_device, register_device_sql, account, insert_user,
  insert_user_sql, get_user_by_email_sql, of_hash,
}
use stok_sync.Auth.Password.{verify_password, hash_password}
use stok_sync.Auth.{
  LoginInput, Session, TransactionOutcome, session, auth_err, Draws, Service, generated,
  new_session, store_session, if_registered, issue_session_in_transaction, answer, or_roll_back,
  if_inserted, register_in_transaction, register_hashed, register_normalized, register,
  issue_session, login_found, login_normalized, login, normalize_login_input,
}
use stok_sync.Auth.Refresh.{SessionFor, new_session-SessionFor, insert-Ends}

-- An update of the devices alone, or nothing.
register_device-Ends :
    (params : RegisterDeviceParams) (t : TxState)
    → Ends
        (λ _ u. u.db ≡ t.db)
        (λ _ u. u.db ≡ record t.db { devices = u.db.devices })
        (register_device params t)
unfolding register_device statement register_device_sql
register_device-Ends params t = ground arith

abbrev pub same_email : (String → String) → String → User → Bool
same_email lower email u = str_eq (lower u.email) (lower email)

abbrev pub with_account : CreateUserParams → Database → Database
with_account params db = record db { users = account params db ∷ db.users }

insert_user-Ends :
    (lower : String → String) (params : CreateUserParams) (t : TxState)
    → Ends
        (λ _ u. u.db ≡ t.db)
        (λ _ u.
          (u.db ≡ with_account params t.db)
          × (exists_row (same_email lower params.email) t.db.users ≡ false))
        (insert_user lower params t)
unfolding insert_user statement insert_user_sql
insert_user-Ends lower params t = ground arith

module _ (s : Service) (now : Time) (draws : Draws) where
  -- The accounts are kept, the device is the account's, and the session's token stands in front,
  -- under a digest that no row had.
  abbrev pub Issued : Uuid → LoginInput → Database → Session → Database → Type 0
  Issued user input db issued db' =
      (params : CreateRefreshTokenParams) × SessionFor s now draws user input.device_id issued
        params
      × (db'.users ≡ db.users)
      × (db'.refresh_tokens ≡ fresh_token params db ∷ db.refresh_tokens)
      × (owns_device user input.device_id db'.devices ≡ true)
      × (exists_row (of_hash params.token_hash) db.refresh_tokens ≡ false)

  abbrev pub OrUnchanged :
      (Session → Database → Type 0) → Database → TransactionOutcome → Database → Type 0
  OrUnchanged Q db (session issued) d = Q issued d
  OrUnchanged Q db (auth_err e) d = d ≡ db

  store_session-Ends :
      (user : Uuid) (input : LoginInput) (db : Database) (ds : List Device) (t : TxState)
      (issued : Session) (params : CreateRefreshTokenParams)
      → t.db ≡ record db { devices = ds }
      → SessionFor s now draws user input.device_id issued params
      → Ends Anyhow
          (λ o u. OrUnchanged (Issued user input db) db o u.db)
          (store_session s now draws (issued, params) t)
  store_session-Ends user input db ds t issued params at_devices made =
      then-Ends Anyhow (λ o u. OrUnchanged (Issued user input db) db o u.db) _
        (λ _. pure (session issued)) (insert_refresh_token params t) (insert-Ends params t)
        λ _ u (after, fresh, owned). (
          params,
          made,
          ap (λ d. d.users) after ∙ ap (λ d. d.users) at_devices,
          ap (λ d. d.refresh_tokens) after
              ∙ ap (λ d. fresh_token params d ∷ d.refresh_tokens) at_devices,
          ap (λ d. owns_device user input.device_id d.devices) after
              ∙ ap (λ p. owns_device p.user_id p.device_id t.db.devices) (sym made.2)
              ∙ owned,
          sym (ap (λ d. exists_row (of_hash params.token_hash) d.refresh_tokens) at_devices)
              ∙ fresh,
        )

  registered-Ends :
      (user : Uuid) (input : LoginInput) (db : Database) (device : Device) (t : TxState)
      → t.db ≡ record db { devices = t.db.devices }
      → Ends Anyhow
          (λ o u. OrUnchanged (Issued user input db) db o u.db)
          (if_registered s now draws user input (ok device) t)
  registered-Ends user input db device t at_devices = go (generated s draws)
    where
      next :
          (raw : String) (r : Result (Session × CreateRefreshTokenParams))
          → new_session s now draws user input.device_id raw ≡ r
          → Ends Anyhow
              (λ o u. OrUnchanged (Issued user input db) db o u.db)
              (and_then (store_session s now draws) (r, t))
      next raw (err e) h = tt
      next raw (ok (issued, params)) h =
          store_session-Ends user input db t.db.devices t issued params at_devices
            (new_session-SessionFor s now draws user input.device_id raw issued params h)

      go :
          (r : Result String)
          → Ends Anyhow
              (λ o u. OrUnchanged (Issued user input db) db o u.db)
              (and_then
                (λ raw.
                  from_result (new_session s now draws user input.device_id raw)
                  >>= store_session s now draws)
                (r, t))
      go (err e) = tt
      go (ok raw) = next raw (new_session s now draws user input.device_id raw) refl

  issue-Ends :
      (user : Uuid) (input : LoginInput) (t : TxState)
      → Ends Anyhow
          (λ o u. OrUnchanged (Issued user input t.db) t.db o u.db)
          (issue_session_in_transaction s now draws user input t)
  unfolding issue_session_in_transaction
  issue-Ends user input t = go (register_device _ t) (register_device-Ends _ t)
    where
      go :
          (r : Result Device × TxState)
          → Ends (λ _ u. u.db ≡ t.db) (λ _ u. u.db ≡ record t.db { devices = u.db.devices }) r
          → Ends Anyhow
              (λ o u. OrUnchanged (Issued user input t.db) t.db o u.db)
              (if_registered s now draws user input r.0 r.1)
      go (ok device, u) h = registered-Ends user input t.db device u h
      go (err no_rows, u) h = h
      go (err _, u) h = tt

  answered-Commits :
      (Q : Session → Database → Type 0) (db : Database) (r : Result TransactionOutcome × Database)
      → Commits (OrUnchanged Q db) db r
      → Commits Q db (answer s now draws r)
  answered-Commits Q db (ok (session issued), d) h = h
  answered-Commits Q db (ok (auth_err e), d) h = h
  answered-Commits Q db (err e, d) h = h

  issue_session-Commits :
      (user : Uuid) (input : LoginInput) (db : Database)
      → Commits (Issued user input db) db (issue_session s now draws user input db)
  unfolding issue_session
  issue_session-Commits user input db =
      answered-Commits (Issued user input db) db
        (with_tx_result (issue_session_in_transaction s now draws user input) db)
        (with_tx_result-Commits Anyhow (OrUnchanged (Issued user input db) db)
          (issue_session_in_transaction s now draws user input) db
          (issue-Ends user input (begin db)))

  -- The session is of the account with the normalized email, whose stored hash the password matches.
  abbrev pub LoggedIn : LoginInput → Database → Session → Database → Type 0
  LoggedIn raw db issued db' =
      (input : LoginInput) × (user : User) × (normalize_login_input s raw ≡ ok input)
      × (get_user_by_email_sql s.lib.sql_lower input.email db ≡ some user)
      × (verify_password s.lib user.password_hash input.password ≡ true)
      × Issued user.id input db issued db'

  Commits-mono :
      {Q R : Session → Database → Type 0} (db : Database) (r : Result Session × Database)
      → ((issued : Session) (d : Database) → Q issued d → R issued d)
      → Commits Q db r
      → Commits R db r
  Commits-mono db (ok issued, d) weaken h = weaken issued d h
  Commits-mono db (err e, d) weaken h = h

  found-Commits :
      (raw input : LoginInput) (user : User) (db : Database)
      → normalize_login_input s raw ≡ ok input
      → get_user_by_email_sql s.lib.sql_lower input.email db ≡ some user
      → Commits (LoggedIn raw db) db (login_found s now draws input (some user) db)
  found-Commits raw input user db norm found =
      elim (Bool-cases (verify_password s.lib user.password_hash input.password)) [
        | inr wrong ↦ rw wrong refl
        | inl right ↦ rw right (
            Commits-mono db (issue_session s now draws user.id input db)
              (λ issued d h. (input, user, norm, found, right, h))
              (issue_session-Commits user.id input db))
      ]

  -- A login that fails leaves the database. One that succeeds found the account of the normalized email
  -- and matched the password with its hash; the accounts are kept, the device is registered with the
  -- account, and one refresh token, of that account and device, is added.
  pub login-LoggedIn :
      (raw : LoginInput) (db : Database) → Commits (LoggedIn raw db) db (login s now draws raw db)
  unfolding login
  login-LoggedIn raw db = go (normalize_login_input s raw) refl
    where
      user_of :
          (input : LoginInput) (o : Option User)
          → normalize_login_input s raw ≡ ok input
          → get_user_by_email_sql s.lib.sql_lower input.email db ≡ o
          → Commits (LoggedIn raw db) db (login_found s now draws input o db)
      user_of input none norm found = refl
      user_of input (some user) norm found = found-Commits raw input user db norm found

      go :
          (r : Result LoginInput)
          → normalize_login_input s raw ≡ r
          → Commits (LoggedIn raw db) db (login_normalized s now draws r db)
      go (err e) norm = refl
      go (ok input) norm =
          user_of input (get_user_by_email_sql s.lib.sql_lower input.email db) norm refl

  abbrev pub new_account : LoginInput → String → CreateUserParams
  new_account input hash = record { id = draws.user_id; email = input.email; password_hash = hash }

  -- The account is new under its email, with the hash of a password of 8 bytes or more.
  abbrev pub Registered : LoginInput → Database → Session → Database → Type 0
  Registered raw db issued db' =
      (input : LoginInput) × (hash : String) × (normalize_login_input s raw ≡ ok input)
      × (ltb (len input.password) 8 ≡ false)
      × (hash_password s.lib input.password ≡ ok hash)
      × (exists_row (same_email s.lib.sql_lower input.email) db.users ≡ false)
      × Issued draws.user_id input (with_account (new_account input hash) db) issued db'

  abbrev AddedTo : LoginInput → String → Database → Session → Database → Type 0
  AddedTo input hash db issued db' =
      (exists_row (same_email s.lib.sql_lower input.email) db.users ≡ false)
      × Issued draws.user_id input (with_account (new_account input hash) db) issued db'

  inserted-Ends :
      (input : LoginInput) (hash : String) (db : Database) (user : User) (t : TxState)
      → t.db ≡ with_account (new_account input hash) db
      → exists_row (same_email s.lib.sql_lower input.email) db.users ≡ false
      → Ends Anyhow
          (λ o u. OrUnchanged (AddedTo input hash db) db o u.db)
          (if_inserted s now draws input (ok user) t)
  inserted-Ends input hash db user t added new =
      then-Ends Anyhow (λ o u. OrUnchanged (AddedTo input hash db) db o u.db)
        (λ o u. OrUnchanged (Issued draws.user_id input t.db) t.db o u.db)
        (or_roll_back s now draws) (issue_session_in_transaction s now draws draws.user_id input t)
        (issue-Ends draws.user_id input t) rolled
    where
      rolled :
          (o : TransactionOutcome) (u : TxState)
          → OrUnchanged (Issued draws.user_id input t.db) t.db o u.db
          → Ends Anyhow
              (λ o' v. OrUnchanged (AddedTo input hash db) db o' v.db)
              (or_roll_back s now draws o u)
      rolled (session issued) u h =
          (new, subst (λ d. Issued draws.user_id input d issued u.db) added h)
      rolled (auth_err e) u h = tt

  register-Ends :
      (input : LoginInput) (hash : String) (t : TxState)
      → Ends Anyhow
          (λ o u. OrUnchanged (AddedTo input hash t.db) t.db o u.db)
          (register_in_transaction s now draws input hash t)
  unfolding register_in_transaction
  register-Ends input hash t =
      go (insert_user s.lib.sql_lower (new_account input hash) t)
        (insert_user-Ends s.lib.sql_lower (new_account input hash) t)
    where
      go :
          (r : Result User × TxState)
          → Ends
              (λ _ u. u.db ≡ t.db)
              (λ _ u.
                (u.db ≡ with_account (new_account input hash) t.db)
                × (exists_row (same_email s.lib.sql_lower input.email) t.db.users ≡ false))
              r
          → Ends Anyhow
              (λ o u. OrUnchanged (AddedTo input hash t.db) t.db o u.db)
              (if_inserted s now draws input r.0 r.1)
      go (ok user, u) h = inserted-Ends input hash t.db user u h.0 h.1
      go (err no_rows, u) h = h
      go (err _, u) h = tt

  hashed-Commits :
      (raw input : LoginInput) (db : Database)
      → normalize_login_input s raw ≡ ok input
      → ltb (len input.password) 8 ≡ false
      → (r : Result String) → hash_password s.lib input.password ≡ r
      → Commits (Registered raw db) db (register_hashed s now draws input r db)
  hashed-Commits raw input db norm long (err e) hashed = refl
  hashed-Commits raw input db norm long (ok hash) hashed =
      Commits-mono db
        (answer s now draws (with_tx_result (register_in_transaction s now draws input hash) db))
        (λ issued d h. (input, hash, norm, long, hashed, h.0, h.1))
        (answered-Commits (AddedTo input hash db) db
          (with_tx_result (register_in_transaction s now draws input hash) db)
          (with_tx_result-Commits Anyhow (OrUnchanged (AddedTo input hash db) db)
            (register_in_transaction s now draws input hash) db
            (register-Ends input hash (begin db))))

  -- A registration that fails leaves the database, also when only the device cannot be claimed. One that
  -- succeeds had a new email and a password of 8 bytes or more; it added exactly the account
  -- with the password's hash, the device is registered with it, and one refresh token is added.
  pub register-Registered :
      (raw : LoginInput) (db : Database)
      → Commits (Registered raw db) db (register s now draws raw db)
  unfolding register
  register-Registered raw db = go (normalize_login_input s raw) refl
    where
      go :
          (r : Result LoginInput)
          → normalize_login_input s raw ≡ r
          → Commits (Registered raw db) db (register_normalized s now draws r db)
      go (err e) norm = refl
      go (ok input) norm = elim (Bool-cases (ltb (len input.password) 8)) [
        | inl short ↦ rw short refl
        | inr long ↦
            rw long
              (hashed-Commits raw input db norm long (hash_password s.lib input.password) refl)
      ]
