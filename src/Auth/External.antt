-- ===== src/Auth/External.antt =====
-- What server/internal/auth calls of other packages, as one record of functions.
use stok_sync.Common.{Option, Bool, String, List, ℕ}
use stok_sync.Common.Int.{ℤ}
use stok_sync.Errors.{Uuid}

-- A `[]byte`.
abbrev pub Bytes : Type 0
Bytes = List ℕ

pub record JwtHeader : Type 0 where
  pub algorithm : String
  pub kind : String

pub record JwtPayload : Type 0 where
  pub issuer : String
  pub audience : String
  pub subject : String
  pub device_id : String
  pub token_id : String
  pub token_use : String
  pub issued_at : ℤ
  pub expires : ℤ

pub record Libraries : Type 0 where
  -- `strings.ToLower`, PostgreSQL's `lower`, and `mail.ParseAddress` with its `Address`.
  pub to_lower : String → String
  pub sql_lower : String → String
  pub parse_address : String → Option String
  -- bcrypt at the configured cost: `GenerateFromPassword` and `CompareHashAndPassword`.
  pub generate_from_password : String → Option String
  pub compare_hash_and_password : String → String → Bool
  -- SHA-256 in hexadecimal digits, and HMAC-SHA-256 under a key.
  pub sha256_hex : String → String
  pub hmac : String → String → Bytes
  -- `base64.RawURLEncoding`.
  pub encode_to_string : Bytes → String
  pub decode_string : String → Option Bytes
  -- `json.Marshal` and `json.Unmarshal` at the two parts of a token.
  pub marshal_header : JwtHeader → Bytes
  pub unmarshal_header : Bytes → Option JwtHeader
  pub marshal_payload : JwtPayload → Bytes
  pub unmarshal_payload : Bytes → Option JwtPayload
  -- `uuid.UUID.String` and `uuid.Parse`.
  pub uuid_string : Uuid → String
  pub uuid_parse : String → Option Uuid
