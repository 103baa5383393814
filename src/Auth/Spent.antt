-- ===== src/Auth/Spent.antt =====
-- The steps that the statements of server/internal/db/auth_queries.go make on `refresh_tokens`, and that
-- none of them makes a spent token active again.
use stok_sync.Common.{
  some, Bool, true, false, String, is_some, ◌≡◌, refl, ap, ◌∙◌, arith, List, [], ◌∷◌, Bool-cases,
  inl, inr,
}
use stok_sync.Common.Lists.{find, exists_row, update_rows}
use stok_sync.Errors.{Uuid}
use stok_sync.Db.Types.{Database, RefreshToken, CreateRefreshTokenParams}
use stok_sync.Db.Auth.{of_hash, fresh_token, rotated, revoked, cut_off}
use stok_sync.Auth.Reuse.{same_hash-find}

-- A change of a row that keeps its digest and its owner, and a mark of revocation.
pub record Marks (change : RefreshToken → RefreshToken) : Type 0 where
  pub same_hash : (t : RefreshToken) → (change t).token_hash ≡ t.token_hash
  pub same_user : (t : RefreshToken) → (change t).user_id ≡ t.user_id
  pub same_device : (t : RefreshToken) → (change t).device_id ≡ t.device_id
  pub still_revoked :
      (t : RefreshToken) → is_some t.revoked_at ≡ true → is_some (change t).revoked_at ≡ true

pub rotated-Marks : (db : Database) → Marks (rotated db)
rotated-Marks db = record {
  same_hash = λ t. refl;
  same_user = λ t. refl;
  same_device = λ t. refl;
  still_revoked = λ t h. refl;
}

pub revoked-Marks : (db : Database) → Marks (revoked db)
revoked-Marks db = record {
  same_hash = λ t. refl;
  same_user = λ t. refl;
  same_device = λ t. refl;
  still_revoked = λ t h. ground arith;
}

pub cut_off-Marks : (db : Database) → Marks (cut_off db)
cut_off-Marks db = record {
  same_hash = λ t. refl;
  same_user = λ t. refl;
  same_device = λ t. refl;
  still_revoked = λ t h. refl;
}

-- What a call does to the tokens: nothing, a mark of some rows, a token under a new digest, or two of
-- these.
pub data TokensStep : List RefreshToken → List RefreshToken → Type 0 where
  unchanged : (ts : List RefreshToken) → TokensStep ts ts
  marked :
      (hit : RefreshToken → Bool) (change : RefreshToken → RefreshToken) (ts : List RefreshToken)
      → Marks change
      → TokensStep ts (update_rows hit change ts)
  issued :
      (params : CreateRefreshTokenParams) (db : Database) (ts : List RefreshToken)
      → exists_row (of_hash params.token_hash) ts ≡ false
      → TokensStep ts (fresh_token params db ∷ ts)
  both : {ts us vs : List RefreshToken} → TokensStep ts us → TokensStep us vs → TokensStep ts vs

-- The row of the digest is a revoked one of the account and the device.
abbrev pub IsSpent : String → Uuid → Uuid → List RefreshToken → Type 0
IsSpent hash user device ts =
    (t : RefreshToken) × (find (of_hash hash) ts ≡ some t)
    × (t.user_id ≡ user)
    × (t.device_id ≡ device)
    × (is_some t.revoked_at ≡ true)

module _ (hash : String) (user device : Uuid) where
  find-marked :
      (hit : RefreshToken → Bool) (change : RefreshToken → RefreshToken) (ts : List RefreshToken)
      → Marks change
      → IsSpent hash user device ts
      → IsSpent hash user device (update_rows hit change ts)
  find-marked hit change [] marks (t, found, owner, on, spent) = cc
  find-marked hit change (x ∷ xs) marks (t, found, owner, on, spent) =
      elim (Bool-cases (of_hash hash x)) [
        | inr miss ↦
            let (u, found', owner', on', spent') =
              find-marked hit change xs marks (t, (rw miss at found), owner, on, spent) in
            (u, passed miss found', owner', on', spent')
        | inl here ↦ at_head here (first here found) owner on spent
      ]
    where
      passed :
          {u : RefreshToken}
          → of_hash hash x ≡ false
          → find (of_hash hash) (update_rows hit change xs) ≡ some u
          → find (of_hash hash) (update_rows hit change (x ∷ xs)) ≡ some u
      passed miss found' = ground (arith, marks.same_hash x)

      first : of_hash hash x ≡ true → find (of_hash hash) (x ∷ xs) ≡ some t → x ≡ t
      first here found = ground arith

      at_head :
          of_hash hash x ≡ true
          → x ≡ t
          → t.user_id ≡ user
          → t.device_id ≡ device
          → is_some t.revoked_at ≡ true
          → IsSpent hash user device (update_rows hit change (x ∷ xs))
      at_head here same owner on spent = elim (Bool-cases (hit x)) [
        | inl marked_here ↦ rw marked_here (
          change x,
          rw (marks.same_hash x, here) refl,
          marks.same_user x ∙ ap (λ r. r.user_id) same ∙ owner,
          marks.same_device x ∙ ap (λ r. r.device_id) same ∙ on,
          marks.still_revoked x (ap (λ r. is_some r.revoked_at) same ∙ spent),
        )
        | inr kept_here ↦ rw kept_here (
          x,
          rw here refl,
          ap (λ r. r.user_id) same ∙ owner,
          ap (λ r. r.device_id) same ∙ on,
          ap (λ r. is_some r.revoked_at) same ∙ spent,
        )
      ]

  pub step-IsSpent :
      {ts us : List RefreshToken}
      → TokensStep ts us
      → IsSpent hash user device ts
      → IsSpent hash user device us
  step-IsSpent (TokensStep.unchanged ts) h = h
  step-IsSpent (TokensStep.marked hit change ts marks) h = find-marked hit change ts marks h
  step-IsSpent (TokensStep.issued params db ts new) (t, found, owner, on, spent) =
      (t, rw (same_hash-find params.token_hash hash ts t new found) found, owner, on, spent)
  step-IsSpent (TokensStep.both a b) h = step-IsSpent b (step-IsSpent a h)
