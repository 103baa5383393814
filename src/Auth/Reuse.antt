-- ===== src/Auth/Reuse.antt =====
-- What a spent or a revoked refresh token is answered (server/internal/auth/service.go).
use stok_sync.Common.{
  none, some, true, false, String, ◌==◌, is_some, ◌≡◌, refl, ap, sym, arith, subst, ◌⊎◌, ◌∙◌, ◌∷◌,
  List, [], Bool-cases, Option-cases, inl, inr, ==_refl,
}
use stok_sync.Common.Text.{str_eq, str_eq_lem, trim_space}
use stok_sync.Common.Lists.{find, exists_row, update_rows, All, exists_row-find}
use stok_sync.Errors.{Uuid, Time, AuthError, auth_error, Error, Result, ok, err}
use stok_sync.Db.Types.{Database, RefreshToken}
use stok_sync.Db.Tx.{with_tx_result, select_one, statement}
use stok_sync.Db.Auth.{
  get_refresh_token_for_update, get_refresh_token_for_update_sql, active_token, rotated, revoked,
  of_token_id, active_on, cut_off, revoke_device_refresh_tokens, revoke_device_refresh_tokens_sql,
  of_hash, revoke_refresh_token, revoke_refresh_token_sql,
}
use stok_sync.Auth.{
  Session, Draws, Service, hash_refresh_token, refresh, refresh_in_transaction, revoke_token,
  is_refresh_token_shape_valid,
}
use stok_sync.Auth.Refresh.{after_reuse, after_revocation, Renewed}

pub some-injective : {A : Type 0} {a b : A} → some a ≡ some b → a ≡ b
some-injective {A} {a} e = ap (λ o. elim o [ none ↦ a | some x ↦ x ]) e

pub none-some : {A : Type 0} {a : A} → none ≡ some a → ⊥
none-some e = subst (λ o. elim o [ none ↦ Unit | some _ ↦ ⊥ ]) e tt

true-false : true ≡ false → ⊥
true-false e = subst (λ b. elim b [ true ↦ Unit | false ↦ ⊥ ]) e tt

pub same_hash-find :
    (g h : String) (ts : List RefreshToken) (t : RefreshToken)
    → exists_row (of_hash g) ts ≡ false
    → find (of_hash h) ts ≡ some t
    → str_eq g h ≡ false
same_hash-find g h ts t absent found = elim (Bool-cases (str_eq g h)) [
  | inr other ↦ other
  | inl same ↦
      elim (none-some (
        sym (exists_row-find (of_hash g) ts absent)
        ∙ ap (λ x. find (of_hash x) ts) (str_eq_lem g h same)
        ∙ found)) [ ]
]

find-rotated :
    (h : String) (db : Database) (ts : List RefreshToken) (t : RefreshToken)
    → find (of_hash h) ts ≡ some t
    → is_some t.revoked_at ≡ false
    → find (of_hash h) (update_rows (active_token t.id) (rotated db) ts) ≡ some (rotated db t)
find-rotated h db [] t found active = cc
find-rotated h db (x ∷ xs) t found active = elim (Bool-cases (of_hash h x)) [
  | inl hit ↦
      subst
        (λ r.
          is_some r.revoked_at ≡ false
          → find (of_hash h) (update_rows (active_token r.id) (rotated db) (x ∷ xs))
            ≡ some (rotated db r))
        (some-injective (rw hit at found)) (λ live. rw (==_refl x.id, live, hit) refl) active
  | inr miss ↦ ground (arith, find-rotated h db xs t)
]

find-revoked :
    (h : String) (db : Database) (ts : List RefreshToken) (t : RefreshToken)
    → find (of_hash h) ts ≡ some t
    → find (of_hash h) (update_rows (of_token_id t.id) (revoked db) ts) ≡ some (revoked db t)
find-revoked h db [] t found = cc
find-revoked h db (x ∷ xs) t found = elim (Bool-cases (of_hash h x)) [
  | inl hit ↦
      subst
        (λ r.
          find (of_hash h) (update_rows (of_token_id r.id) (revoked db) (x ∷ xs))
          ≡ some (revoked db r))
        (some-injective (rw hit at found)) (rw (==_refl x.id, hit) refl)
  | inr miss ↦ ground (arith, find-revoked h db xs t)
]

pub cut_off-All :
    (user device : Uuid) (db : Database) (ts : List RefreshToken)
    → All
        (λ t. active_on user device t ≡ false)
        (update_rows (active_on user device) (cut_off db) ts)
cut_off-All user device db [] = tt
cut_off-All user device db (t ∷ ts) = (ground arith, cut_off-All user device db ts)

pub find-of_token_id :
    (h : String) (ts : List RefreshToken) (t : RefreshToken)
    → find (of_hash h) ts ≡ some t
    → (u : RefreshToken) × (find (of_token_id t.id) ts ≡ some u)
find-of_token_id h [] t found = elim (none-some found) [ ]
find-of_token_id h (x ∷ xs) t found = elim (Bool-cases (x.id == t.id)) [
  | inl here ↦ (x, rw here refl)
  | inr there ↦ rw there (elim (Bool-cases (of_hash h x)) [
    | inr miss ↦ find-of_token_id h xs t (rw miss at found)
    | inl hit ↦
        elim (true-false (
          sym (==_refl x.id)
          ∙ subst (λ r. (x.id == r.id) ≡ false) (sym (some-injective (rw hit at found))) there)) [ ]
  ])
]

revoked-is_some : (db : Database) (t : RefreshToken) → is_some (revoked db t).revoked_at ≡ true
revoked-is_some db t = ground arith

module _ (s : Service) where
  abbrev pub hash_of : String → String
  hash_of raw = hash_refresh_token s (trim_space raw)

  pub spent-refresh :
      (now : Time) (draws : Draws) (raw : String) (db : Database) (stored : RefreshToken)
      → is_refresh_token_shape_valid s (trim_space raw) ≡ true
      → get_refresh_token_for_update_sql (hash_of raw) db ≡ some stored
      → is_some stored.revoked_at ≡ true
      → refresh s now draws raw db
        ≡ (err (auth_error AuthError.refresh_token_reuse), after_reuse stored db)
  unfolding refresh refresh_in_transaction with_tx_result get_refresh_token_for_update select_one
      statement revoke_device_refresh_tokens revoke_device_refresh_tokens_sql
  spent-refresh now draws raw db stored shaped found spent = rw (shaped, found, spent) refl

  pub refresh-shaped :
      (now : Time) (draws : Draws) (raw : String) (db db' : Database) (issued : Session)
      → refresh s now draws raw db ≡ (ok issued, db')
      → is_refresh_token_shape_valid s (trim_space raw) ≡ true
  unfolding refresh
  refresh-shaped now draws raw db db' issued h =
      elim (Bool-cases (is_refresh_token_shape_valid s (trim_space raw))) [
        | inl shaped ↦ shaped
        | inr odd ↦ elim (err-ok (ap (λ r. r.0) (rw odd at h))) [ ]
      ]
    where
      err-ok : {A : Type 0} {e : Error} {a : A} → Result.err e ≡ ok a → ⊥
      err-ok e = subst (λ r. elim r [ ok _ ↦ ⊥ | err _ ↦ Unit ]) e tt

  -- No active token of the device.
  abbrev pub CutOff : Uuid → Uuid → Database → Type 0
  CutOff user device db = All (λ t. active_on user device t ≡ false) db.refresh_tokens

  pub Renewed-find :
      (now : Time) (draws : Draws) (hash : String) (db db' : Database) (issued : Session)
      → Renewed s now draws hash issued db db'
      → (stored : RefreshToken) × (get_refresh_token_for_update_sql hash db'
          ≡ some (rotated db stored))
        × (issued.user_id ≡ stored.user_id)
        × (issued.device_id ≡ stored.device_id)
  unfolding get_refresh_token_for_update_sql
  Renewed-find now draws hash db db' issued
        (stored, found, active, early, (params, made, after, fresh)) =
      (
        stored,
        ap (λ d. find (of_hash hash) d.refresh_tokens) after
            ∙ rw
                (same_hash-find params.token_hash hash _ (rotated db stored) fresh
                  (find-rotated hash db db.refresh_tokens stored found active))
                (find-rotated hash db db.refresh_tokens stored found active),
        made.0,
        made.1,
      )

  -- The digest has no active row.
  abbrev Dead : String → Database → Type 0
  Dead hash db =
      (get_refresh_token_for_update_sql hash db ≡ none)
      ⊎ ((t : RefreshToken) × (get_refresh_token_for_update_sql hash db ≡ some t)
          × (is_some t.revoked_at ≡ true))

  pub digest-find :
      (hash : String) (db : Database) (t : RefreshToken)
      → get_refresh_token_for_update_sql hash db ≡ some t
      → find (of_hash hash) db.refresh_tokens ≡ some t
  unfolding get_refresh_token_for_update_sql
  digest-find hash db t found = found

  digest-revoked :
      (hash : String) (db : Database) (t : RefreshToken)
      → get_refresh_token_for_update_sql hash db ≡ some t
      → get_refresh_token_for_update_sql hash (after_revocation t db) ≡ some (revoked db t)
  unfolding get_refresh_token_for_update_sql
  digest-revoked hash db t found = find-revoked hash db db.refresh_tokens t found

  revoke_token-Dead :
      (raw : String) (db : Database)
      → is_refresh_token_shape_valid s (trim_space raw) ≡ true
      → (db' : Database) × (revoke_token s raw db ≡ (ok tt, db')) × Dead (hash_of raw) db'
  unfolding revoke_token with_tx_result get_refresh_token_for_update select_one statement
      revoke_refresh_token revoke_refresh_token_sql
  revoke_token-Dead raw db shaped =
      elim (Option-cases (get_refresh_token_for_update_sql (hash_of raw) db)) [
        | inl unknown ↦ (db, rw (shaped, unknown) refl, inl unknown)
        | inr (t, found) ↦
            let (u, row) =
              find-of_token_id (hash_of raw) db.refresh_tokens t
                (digest-find (hash_of raw) db t found) in
            (
              after_revocation t db,
              rw (shaped, found, row) refl,
              inr (revoked db t, digest-revoked (hash_of raw) db t found, revoked-is_some db t),
            )
      ]

  Dead-refresh :
      (now : Time) (draws : Draws) (raw : String) (db : Database)
      → is_refresh_token_shape_valid s (trim_space raw) ≡ true
      → Dead (hash_of raw) db
      → (e : Error) × (db' : Database) × (refresh s now draws raw db ≡ (err e, db'))
  unfolding refresh refresh_in_transaction with_tx_result get_refresh_token_for_update select_one
      statement
  Dead-refresh now draws raw db shaped (inl unknown) =
      (auth_error AuthError.invalid_refresh_token, db, rw (shaped, unknown) refl)
  Dead-refresh now draws raw db shaped (inr (t, found, dead)) = (
    auth_error AuthError.refresh_token_reuse,
    after_reuse t db,
    spent-refresh now draws raw db t shaped found dead,
  )

  -- A revocation succeeds whatever the token, known or not, and from then on the token is refused:
  -- a refresh with it right after answers an error.
  pub revoke_token-refresh :
      (now : Time) (draws : Draws) (raw : String) (db : Database)
      → (db' : Database) × (revoke_token s raw db ≡ (ok tt, db'))
        × (e : Error) × (db'' : Database) × (refresh s now draws raw db' ≡ (err e, db''))
  unfolding revoke_token refresh
  revoke_token-refresh now draws raw db =
      elim (Bool-cases (is_refresh_token_shape_valid s (trim_space raw))) [
        | inr odd ↦ (db, rw odd refl, auth_error AuthError.invalid_refresh_token, db, rw odd refl)
        | inl shaped ↦
            let (db', revokes, dead) = revoke_token-Dead raw db shaped in
            let (e, db'', refused) = Dead-refresh now draws raw db' shaped dead in
            (db', revokes, e, db'', refused)
      ]
