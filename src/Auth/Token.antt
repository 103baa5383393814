-- ===== src/Auth/Token.antt =====
-- server/internal/auth/token.go: access tokens, as signed JSON web tokens.
pub mod RoundTrip
pub mod Signed
use Prim.Native.Char.{Char, code}
use Prim.Native.Nat.{◌/◌, ◌*◌}
use Prim.Native.String.{len}
use stok_sync.Common.{
  Option, none, some, Bool, true, false, not, ◌&&◌, ◌||◌, List, [], ◌∷◌, String, if◌then◌else◌,
  ◌==◌, ltb, ◌+◌, ◌++◌,
}
use stok_sync.Common.Int.{ℤ, pos, negsuc, ◌+ℤ◌, ◌-ℤ◌, ltb_ℤ, leb_ℤ}
use stok_sync.Common.Text.{str_eq, trim_space}
use stok_sync.Errors.{Uuid, Time, AuthError, auth_error, plain, Result, ok, err}
use stok_sync.Auth.External.{Libraries, Bytes, JwtHeader, JwtPayload}

pub record TokenManager : Type 0 where
  pub secret : String
  pub issuer : String
  pub audience : String
  pub ttl : ℤ

pub record AccessClaims : Type 0 where
  pub user_id : Uuid
  pub device_id : Uuid
  pub id : Uuid
  pub issued_at : Time
  pub expires_at : Time
  pub issuer : String
  pub audience : String

-- Whole seconds since the zero time, rounded down.
unfoldable pub seconds : Time → ℤ
seconds (pos t) = pos (t / 1000000)
seconds (negsuc t) = negsuc (t / 1000000)

abbrev pub of_seconds : ℤ → Time
of_seconds (pos s) = pos (s * 1000000)
of_seconds (negsuc s) = negsuc (s * 1000000 + 999999)

-- `Truncate(time.Second)`.
abbrev pub truncate : Time → Time
truncate t = of_seconds (seconds t)

-- The seconds from the zero time to 1970.
abbrev pub unix_epoch : ℤ
unix_epoch = pos 62135596800

-- `Unix()` and `time.Unix(s, 0)`.
abbrev pub unix : Time → ℤ
unix t = seconds t -ℤ unix_epoch

abbrev pub from_unix : ℤ → Time
from_unix s = of_seconds (s +ℤ unix_epoch)

unfoldable pub new_token_manager : String → String → String → ℤ → Result TokenManager
unfolding trim_space
new_token_manager secret issuer audience ttl =
    if ltb (len (trim_space secret)) 32
    then err (plain "access token secret must be at least 32 bytes")
    else if str_eq (trim_space issuer) ""
    then err (plain "access token issuer must not be empty")
    else if str_eq (trim_space audience) ""
    then err (plain "access token audience must not be empty")
    else if leb_ℤ ttl (pos 0)
    then err (plain "access token lifetime must be greater than zero")
    else ok (record {
      secret = trim_space secret;
      issuer = trim_space issuer;
      audience = trim_space audience;
      ttl = ttl;
    })

-- `strings.Split(token, ".")`.
abbrev with_head : Char → List String → List String
with_head c [] = []
with_head c (part ∷ parts) = String.◌∷◌ c part ∷ parts

unfoldable pub split_dots : String → List String
split_dots String.[] = "" ∷ []
split_dots (String.◌∷◌ c s) =
    let rest = split_dots s in if code c == b'.' then "" ∷ rest else with_head c rest

abbrev pub join_dot : String → String → String
join_dot String.[] t = String.◌∷◌ (Char.char b'.' tt) t
join_dot (String.◌∷◌ c s) t = String.◌∷◌ c (join_dot s t)

abbrev pub bytes_eq : Bytes → Bytes → Bool
bytes_eq [] [] = true
bytes_eq [] (y ∷ ys) = false
bytes_eq (x ∷ xs) [] = false
bytes_eq (x ∷ xs) (y ∷ ys) = x == y && bytes_eq xs ys

infixl 5 ◌>>=◌
abbrev pub ◌>>=◌ : {A B : Type 0} → Option A → (A → Option B) → Option B
none >>= f = none
some a >>= f = f a

abbrev pub access_header : JwtHeader
access_header = record { algorithm = "HS256"; kind = "JWT" }

abbrev pub skew : ℤ
skew = pos 30000000

-- The checks of the claims, after the signature was verified.
unfoldable pub claims_of : Libraries → TokenManager → Time → JwtPayload → Option AccessClaims
claims_of lib m now payload = do
  user ← lib.uuid_parse payload.subject
  device ← lib.uuid_parse payload.device_id
  token ← lib.uuid_parse payload.token_id
  if user == 0 || device == 0 || token == 0
      then none
      else if not (str_eq payload.issuer m.issuer)
          || not (str_eq payload.audience m.audience)
          || not (str_eq payload.token_use "access")
      then none
      else if leb_ℤ payload.issued_at (pos 0) || leb_ℤ payload.expires payload.issued_at
      then none
      else if ltb_ℤ (unix (now +ℤ skew)) payload.issued_at || leb_ℤ payload.expires (unix now)
      then none
      else some (record {
        user_id = user;
        device_id = device;
        id = token;
        issued_at = from_unix payload.issued_at;
        expires_at = from_unix payload.expires;
        issuer = payload.issuer;
        audience = payload.audience;
      })

abbrev pub is_access_header : JwtHeader → Bool
is_access_header h = str_eq h.algorithm "HS256" && str_eq h.kind "JWT"

-- The three parts of a token, not empty.
unfoldable pub claims_of_parts :
    Libraries → TokenManager → Time → String → String → String → Option AccessClaims
unfolding claims_of
claims_of_parts lib m now head body seal = do
  header_bytes ← lib.decode_string head
  header ← lib.unmarshal_header header_bytes
  payload_bytes ← lib.decode_string body
  payload ← lib.unmarshal_payload payload_bytes
  signature ← lib.decode_string seal
  if not (is_access_header header)
        || not (bytes_eq signature (lib.hmac m.secret (join_dot head body)))
      then none
      else claims_of lib m now payload

abbrev pub claims_of_split : Libraries → TokenManager → Time → List String → Option AccessClaims
claims_of_split lib m now (head ∷ body ∷ seal ∷ []) =
    if str_eq head "" || str_eq body "" || str_eq seal ""
    then none
    else claims_of_parts lib m now head body seal
claims_of_split lib m now _ = none

abbrev pub accepted : Option AccessClaims → Result AccessClaims
accepted none = err (auth_error AuthError.invalid_access_token)
accepted (some claims) = ok claims

unfoldable pub validate_access_token :
    Libraries → TokenManager → Time → String → Result AccessClaims
unfolding claims_of_parts split_dots
validate_access_token lib m now token =
    if str_eq token ""
    then err (auth_error AuthError.invalid_access_token)
    else accepted (claims_of_split lib m now (split_dots token))

unfoldable pub sign : Libraries → TokenManager → JwtHeader → JwtPayload → String
sign lib m header payload =
    let head = lib.encode_to_string (lib.marshal_header header) in
    let body = lib.encode_to_string (lib.marshal_payload payload) in
    join_dot head (join_dot body (lib.encode_to_string (lib.hmac m.secret (join_dot head body))))

-- `token` is the identifier that `uuid.New` draws.
abbrev pub issued_payload : Libraries → TokenManager → Time → Uuid → Uuid → Uuid → JwtPayload
issued_payload lib m now token user device = record {
  issuer = m.issuer;
  audience = m.audience;
  subject = lib.uuid_string user;
  device_id = lib.uuid_string device;
  token_id = lib.uuid_string token;
  token_use = "access";
  issued_at = unix (truncate now);
  expires = unix (truncate now +ℤ m.ttl);
}

unfoldable pub issue_access_token :
    Libraries → TokenManager → Time → Uuid → Uuid → Uuid → Result (String × Time)
unfolding sign
issue_access_token lib m now token user device =
    if user == 0 || device == 0
    then err (plain "token manager or token identity is invalid")
    else if leb_ℤ (truncate now +ℤ m.ttl) (truncate now)
    then err (plain "access token lifetime overflow")
    else ok (
      sign lib m access_header (issued_payload lib m now token user device),
      truncate now +ℤ m.ttl,
    )
