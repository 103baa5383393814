-- ===== src/Auth/Token/Signed.antt =====
-- What an accepted access token is (server/internal/auth/token.go).
use stok_sync.Common.{
  Option, none, some, Bool, true, false, not, ◌||◌, List, [], ◌∷◌, String, if◌then◌else◌, ◌==◌, ◌≡◌,
  refl, subst, ap, arith, Bool-cases, inl, inr,
}
use stok_sync.Common.Int.{ℤ, pos, ltb_ℤ, leb_ℤ, ◌<ℤ◌, ◌+ℤ◌}
use stok_sync.Common.Text.{str_eq, str_eq_lem}
use stok_sync.Errors.{Uuid, Time, Error, ok, err}
use stok_sync.Auth.External.{Libraries, Bytes, JwtPayload}
use stok_sync.Auth.Token.{
  TokenManager, AccessClaims, unix, from_unix, skew, split_dots, join_dot, bytes_eq, claims_of,
  claims_of_parts, claims_of_split, accepted, validate_access_token, is_access_header, ◌>>=◌,
}

none-some : {A : Type 0} {a : A} → none ≡ some a → ⊥
none-some e = subst (λ o. elim o [ none ↦ Unit | some _ ↦ ⊥ ]) e tt

bind-some :
    {A B : Type 0} (o : Option A) (f : A → Option B) (b : B)
    → (o >>= f) ≡ some b
    → (a : A) × (o ≡ some a) × (f a ≡ some b)
bind-some none f b h = elim (none-some h) [ ]
bind-some (some a) f b h = (a, refl, h)

unless-some :
    {B : Type 0} (c : Bool) (rest : Option B) (b : B)
    → (if c then none else rest) ≡ some b
    → (c ≡ false) × (rest ≡ some b)
unless-some true rest b h = elim (none-some h) [ ]
unless-some false rest b h = (refl, h)

true-false : true ≡ false → ⊥
true-false e = subst (λ b. elim b [ true ↦ Unit | false ↦ ⊥ ]) e tt

some-injective : {A : Type 0} {a b : A} → some a ≡ some b → a ≡ b
some-injective {A} {a} e = ap (λ o. elim o [ none ↦ a | some x ↦ x ]) e

same_text : (s t : String) → not (str_eq s t) ≡ false → s ≡ t
same_text s t h = str_eq_lem s t (ground arith)

err-ok : {A : Type 0} {e : Error} {a : A} → err e ≡ ok a → ⊥
err-ok e = subst (λ r. elim r [ ok _ ↦ ⊥ | err _ ↦ Unit ]) e tt

neither : (b c : Bool) → (b || c) ≡ false → (b ≡ false) × (c ≡ false)
neither b c h = ground arith

above : (a b : ℤ) → leb_ℤ b a ≡ false → a <ℤ b
above a b h = ground arith

seal_lem : (b c : Bool) → (not b || not c) ≡ false → c ≡ true
seal_lem b c h = ground arith

module _ (lib : Libraries) (m : TokenManager) (now : Time) where
  abbrev pub Claimed : JwtPayload → AccessClaims → Type 0
  Claimed payload claims =
      (payload.issuer ≡ m.issuer)
      × (payload.audience ≡ m.audience)
      × (lib.uuid_parse payload.subject ≡ some claims.user_id)
      × (lib.uuid_parse payload.device_id ≡ some claims.device_id)
      × ((claims.user_id == 0) ≡ false)
      × ((claims.device_id == 0) ≡ false)
      × (unix now <ℤ payload.expires)

  -- The text has three parts; the third is the signature of the first two under the manager's key; and
  -- the signed payload has the manager's issuer and audience, and has not expired.
  abbrev pub Signed : String → AccessClaims → Type 0
  Signed token claims =
      (head body seal : String) × (signature : Bytes) × (bytes : Bytes) × (payload : JwtPayload)
      × (split_dots token ≡ head ∷ body ∷ seal ∷ [])
      × (lib.decode_string seal ≡ some signature)
      × (bytes_eq signature (lib.hmac m.secret (join_dot head body)) ≡ true)
      × (lib.decode_string body ≡ some bytes)
      × (lib.unmarshal_payload bytes ≡ some payload)
      × Claimed payload claims

  abbrev claims_with : JwtPayload → Uuid → Uuid → Uuid → AccessClaims
  claims_with payload user device token = record {
    user_id = user;
    device_id = device;
    id = token;
    issued_at = from_unix payload.issued_at;
    expires_at = from_unix payload.expires;
    issuer = payload.issuer;
    audience = payload.audience;
  }

  abbrev checked : JwtPayload → Uuid → Uuid → Uuid → Option AccessClaims
  checked payload user device token =
      if user == 0 || device == 0 || token == 0
      then none
      else if not (str_eq payload.issuer m.issuer)
          || not (str_eq payload.audience m.audience)
          || not (str_eq payload.token_use "access")
      then none
      else if leb_ℤ payload.issued_at (pos 0) || leb_ℤ payload.expires payload.issued_at
      then none
      else if ltb_ℤ (unix (now +ℤ skew)) payload.issued_at || leb_ℤ payload.expires (unix now)
      then none
      else some (claims_with payload user device token)

  checked-Claimed :
      (payload : JwtPayload) (user device token : Uuid) (claims : AccessClaims)
      → lib.uuid_parse payload.subject ≡ some user
      → lib.uuid_parse payload.device_id ≡ some device
      → checked payload user device token ≡ some claims
      → Claimed payload claims
  checked-Claimed payload user device token claims parses_user parses_device h =
      let ids = unless-some (user == 0 || device == 0 || token == 0) _ claims h in
      let texts = unless-some _ _ claims ids.1 in
      let times = unless-some _ _ claims texts.1 in
      let lives = unless-some _ _ claims times.1 in
      let nils = neither (user == 0) (device == 0) (neither _ (token == 0) ids.0).0 in
      let named =
        neither (not (str_eq payload.issuer m.issuer)) (not (str_eq payload.audience m.audience))
          (neither _ (not (str_eq payload.token_use "access")) texts.0).0 in
      subst (Claimed payload) (some-injective lives.1) (
        same_text payload.issuer m.issuer named.0,
        same_text payload.audience m.audience named.1,
        parses_user,
        parses_device,
        nils.0,
        nils.1,
        above (unix now) payload.expires
            (neither (ltb_ℤ (unix (now +ℤ skew)) payload.issued_at)
              (leb_ℤ payload.expires (unix now)) lives.0).1,
      )

  claims_of-Claimed :
      (payload : JwtPayload) (claims : AccessClaims)
      → claims_of lib m now payload ≡ some claims
      → Claimed payload claims
  unfolding claims_of
  claims_of-Claimed payload claims h =
      let (user, parses_user, h1) = bind-some (lib.uuid_parse payload.subject) _ claims h in
      let (device, parses_device, h2) = bind-some (lib.uuid_parse payload.device_id) _ claims h1 in
      let (token, parses_token, h3) = bind-some (lib.uuid_parse payload.token_id) _ claims h2 in
      checked-Claimed payload user device token claims parses_user parses_device h3

  parts-Signed :
      (token head body seal : String) (claims : AccessClaims)
      → split_dots token ≡ head ∷ body ∷ seal ∷ []
      → claims_of_parts lib m now head body seal ≡ some claims
      → Signed token claims
  unfolding claims_of_parts
  parts-Signed token head body seal claims splits h =
      let (head_bytes, decodes_head, h1) = bind-some (lib.decode_string head) _ claims h in
      let (header, reads_header, h2) = bind-some (lib.unmarshal_header head_bytes) _ claims h1 in
      let (bytes, decodes_body, h3) = bind-some (lib.decode_string body) _ claims h2 in
      let (payload, reads_payload, h4) = bind-some (lib.unmarshal_payload bytes) _ claims h3 in
      let (signature, decodes_seal, h5) = bind-some (lib.decode_string seal) _ claims h4 in
      let checks =
        unless-some
          (not (is_access_header header)
            || not (bytes_eq signature (lib.hmac m.secret (join_dot head body))))
          _ claims h5 in
      (
        head,
        body,
        seal,
        signature,
        bytes,
        payload,
        splits,
        decodes_seal,
        seal_lem (is_access_header header)
            (bytes_eq signature (lib.hmac m.secret (join_dot head body))) checks.0,
        decodes_body,
        reads_payload,
        claims_of-Claimed payload claims checks.1,
      )

  split-Signed :
      (token : String) (parts : List String) (claims : AccessClaims)
      → split_dots token ≡ parts
      → claims_of_split lib m now parts ≡ some claims
      → Signed token claims
  split-Signed token (head ∷ body ∷ seal ∷ []) claims splits h =
      parts-Signed token head body seal claims splits
        (unless-some (str_eq head "" || str_eq body "" || str_eq seal "") _ claims h).1
  split-Signed token [] claims splits h = elim (none-some h) [ ]
  split-Signed token (a ∷ []) claims splits h = elim (none-some h) [ ]
  split-Signed token (a ∷ b ∷ []) claims splits h = elim (none-some h) [ ]
  split-Signed token (a ∷ b ∷ c ∷ d ∷ rest) claims splits h = elim (none-some h) [ ]

  accepted-some :
      (o : Option AccessClaims) (claims : AccessClaims) → accepted o ≡ ok claims → o ≡ some claims
  accepted-some none claims h = elim (err-ok h) [ ]
  accepted-some (some x) claims h = ap (λ r. elim r [ ok y ↦ some y | err _ ↦ some x ]) h

  -- An accepted text has three parts; the third decodes to the signature of the first two under the
  -- manager's key. The signed payload has the manager's issuer and audience and expires after the
  -- current second, and it names the account and the device of the claims, which are not nil.
  pub validate_access_token-Signed :
      (token : String) (claims : AccessClaims)
      → validate_access_token lib m now token ≡ ok claims
      → Signed token claims
  unfolding validate_access_token
  validate_access_token-Signed token claims h = elim (Bool-cases (str_eq token "")) [
    | inl nothing ↦ elim (err-ok (rw nothing at h)) [ ]
    | inr given ↦
        split-Signed token (split_dots token) claims refl
          (accepted-some (claims_of_split lib m now (split_dots token)) claims (rw given at h))
  ]
