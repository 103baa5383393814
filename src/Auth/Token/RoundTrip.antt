-- ===== src/Auth/Token/RoundTrip.antt =====
-- A token that the manager issues is accepted while it lives (server/internal/auth/token.go).
use Prim.Native.Char.{Char}
use Prim.Native.String.compare
use Prim.Native.Nat.{ℕ}
use stok_sync.Common.{some, true, false, [], ◌∷◌, String, ◌==◌, ◌≡◌, refl, ap, ◌∙◌, arith}
use stok_sync.Common.Int.{
  ℤ, pos, negsuc, ◌+ℤ◌, ◌-ℤ◌, ltb_ℤ, leb_ℤ, ◌≤ℤ◌, ◌<ℤ◌, int_laws, +ℤ_parts, -ℤ_parts,
}
use stok_sync.Common.Text.{str_eq, contains_char, str_eq_refl}
use stok_sync.Errors.{Uuid, Time, ok}
use stok_sync.Auth.External.{Libraries, Bytes, JwtPayload}
use stok_sync.Auth.Token.{
  TokenManager, AccessClaims, seconds, of_seconds, truncate, unix, unix_epoch, from_unix, skew,
  split_dots, join_dot, bytes_eq, claims_of, claims_of_parts, accepted, validate_access_token, sign,
  access_header, issued_payload, issue_access_token,
}

abbrev DotFree : String → Type 0
DotFree s = contains_char (λ c. c == b'.') s ≡ false

split_dots-join_dot : (s t : String) → DotFree s → split_dots (join_dot s t) ≡ s ∷ split_dots t
unfolding split_dots
split_dots-join_dot String.[] t h = refl
split_dots-join_dot (String.◌∷◌ c s) t h = ground (arith, split_dots-join_dot s t)

split_dots-plain : (s : String) → DotFree s → split_dots s ≡ s ∷ []
unfolding split_dots
split_dots-plain String.[] h = refl
split_dots-plain (String.◌∷◌ c s) h = ground (arith, split_dots-plain s)

bytes_eq_refl : (bs : Bytes) → bytes_eq bs bs ≡ true
bytes_eq_refl [] = refl
bytes_eq_refl (b ∷ bs) = ground (arith, bytes_eq_refl bs)

join_dot_text : (s t : String) → str_eq (join_dot s t) "" ≡ false
join_dot_text String.[] t = rw (compare.cons-nil (Char.char b'.' tt) t) refl
join_dot_text (String.◌∷◌ c s) t = rw (compare.cons-nil c (join_dot s t)) refl

seconds-truncate : (t : Time) → seconds (truncate t) ≡ seconds t
unfolding seconds
seconds-truncate (pos t) = ap pos (omega arith)
seconds-truncate (negsuc t) = ap negsuc (omega arith)

from_unix-unix : (t : Time) → from_unix (unix t) ≡ truncate t
from_unix-unix t = ap of_seconds (grind int_laws)

seconds_mono : (s t : Time) → s ≤ℤ t → seconds s ≤ℤ seconds t
unfolding seconds
seconds_mono (pos s) (pos t) h = omega arith
seconds_mono (pos s) (negsuc t) h = omega arith
seconds_mono (negsuc s) (pos t) h = omega arith
seconds_mono (negsuc s) (negsuc t) h = omega arith

seconds_before : (s t : Time) → s <ℤ truncate t → seconds s <ℤ seconds t
unfolding seconds
seconds_before (pos s) (pos t) h = omega arith
seconds_before (pos s) (negsuc t) h = omega arith
seconds_before (negsuc s) (pos t) h = omega arith
seconds_before (negsuc s) (negsuc t) h = omega arith

seconds_later : (t d : ℤ) → pos 1000000 ≤ℤ d → seconds t <ℤ seconds (t +ℤ d)
unfolding seconds ◌+ℤ◌
seconds_later (pos t) (pos d) h = ground arith
seconds_later (negsuc t) (pos d) h = ground arith
seconds_later t (negsuc d) h = ground arith

≤ℤ_later : (t : ℤ) (d : ℕ) → t ≤ℤ t +ℤ pos d
≤ℤ_later t d = omega (arith, +ℤ_parts t (pos d))

sub_positive : (a e : ℤ) → e <ℤ a → leb_ℤ (a -ℤ e) (pos 0) ≡ false
sub_positive a e h = ground (arith, -ℤ_parts a e)

sub_leb : (a b e : ℤ) → a <ℤ b → leb_ℤ (b -ℤ e) (a -ℤ e) ≡ false
sub_leb a b e h = ground (arith, -ℤ_parts a e, -ℤ_parts b e)

sub_ltb : (a d e : ℤ) → a ≤ℤ d → ltb_ℤ (d -ℤ e) (a -ℤ e) ≡ false
sub_ltb a d e h = ground (arith, -ℤ_parts a e, -ℤ_parts d e)

module _ (lib : Libraries) (m : TokenManager) (now : Time) (token user device : Uuid) where
  abbrev pub issued : JwtPayload
  issued = issued_payload lib m now token user device

  abbrev head_part : String
  head_part = lib.encode_to_string (lib.marshal_header access_header)

  abbrev body_part : String
  body_part = lib.encode_to_string (lib.marshal_payload issued)

  abbrev signature : Bytes
  signature = lib.hmac m.secret (join_dot head_part body_part)

  -- base64url has no dot, writes no empty text for these three parts, and is decoded to them.
  abbrev pub Encoded : Bytes → Type 0
  Encoded bytes =
      (lib.decode_string (lib.encode_to_string bytes) ≡ some bytes)
      × DotFree (lib.encode_to_string bytes)
      × (str_eq (lib.encode_to_string bytes) "" ≡ false)

  -- encoding/json, base64 and uuid read back what they wrote for this token.
  pub record ReadsBack : Type 0 where
    pub head_back : Encoded (lib.marshal_header access_header)
    pub body_back : Encoded (lib.marshal_payload issued)
    pub seal_back : Encoded signature
    pub header_back : lib.unmarshal_header (lib.marshal_header access_header) ≡ some access_header
    pub payload_back : lib.unmarshal_payload (lib.marshal_payload issued) ≡ some issued
    pub user_back : lib.uuid_parse (lib.uuid_string user) ≡ some user
    pub device_back : lib.uuid_parse (lib.uuid_string device) ≡ some device
    pub token_back : lib.uuid_parse (lib.uuid_string token) ≡ some token

  abbrev pub issued_claims : AccessClaims
  issued_claims = record {
    user_id = user;
    device_id = device;
    id = token;
    issued_at = truncate now;
    expires_at = truncate (truncate now +ℤ m.ttl);
    issuer = m.issuer;
    audience = m.audience;
  }

  parts_lem :
      (later : Time)
      → ReadsBack
      → claims_of_parts lib m later head_part body_part (lib.encode_to_string signature)
        ≡ claims_of lib m later issued
  unfolding claims_of_parts
  parts_lem later back =
      rw
        (
          back.head_back.0,
          back.header_back,
          back.body_back.0,
          back.payload_back,
          back.seal_back.0,
          bytes_eq_refl signature,
        )
        refl

  issued_not_later :
      (later : Time) → now ≤ℤ later → ltb_ℤ (unix (later +ℤ skew)) (unix (truncate now)) ≡ false
  issued_not_later later order = rw (seconds-truncate now) (
      sub_ltb (seconds now) (seconds (later +ℤ skew)) unix_epoch (
        grind (
          int_laws,
          seconds_mono now later order,
          seconds_mono later (later +ℤ skew) (≤ℤ_later later 30000000),
        )))

  expires_later : pos 1000000 ≤ℤ m.ttl → leb_ℤ issued.expires issued.issued_at ≡ false
  expires_later long =
      sub_leb (seconds (truncate now)) (seconds (truncate now +ℤ m.ttl)) unix_epoch
        (seconds_later (truncate now) m.ttl long)

  issued_positive : unix_epoch <ℤ seconds now → leb_ℤ issued.issued_at (pos 0) ≡ false
  issued_positive since = rw (seconds-truncate now) (sub_positive (seconds now) unix_epoch since)

  still_lives :
      (later : Time)
      → later <ℤ truncate (truncate now +ℤ m.ttl)
      → leb_ℤ issued.expires (unix later) ≡ false
  still_lives later live =
      sub_leb (seconds later) (seconds (truncate now +ℤ m.ttl)) unix_epoch
        (seconds_before later (truncate now +ℤ m.ttl) live)

  claims_lem :
      (later : Time)
      → ReadsBack
      → (user == 0) ≡ false
      → (device == 0) ≡ false
      → (token == 0) ≡ false
      → unix_epoch <ℤ seconds now
      → pos 1000000 ≤ℤ m.ttl
      → now ≤ℤ later
      → later <ℤ truncate (truncate now +ℤ m.ttl)
      → claims_of lib m later issued ≡ some issued_claims
  unfolding claims_of
  claims_lem later back known registered drawn since long order live =
      rw
        (
          back.user_back,
          back.device_back,
          back.token_back,
          known,
          registered,
          drawn,
          str_eq_refl m.issuer,
          str_eq_refl m.audience,
          issued_positive since,
          expires_later long,
          issued_not_later later order,
          still_lives later live,
          from_unix-unix (truncate now),
          seconds-truncate now,
          from_unix-unix (truncate now +ℤ m.ttl),
        )
        refl

  split_lem :
      (later : Time)
      → ReadsBack
      → validate_access_token lib m later (sign lib m access_header issued)
        ≡ accepted (claims_of lib m later issued)
  unfolding validate_access_token sign
  split_lem later back =
      rw
        (
          join_dot_text head_part (join_dot body_part (lib.encode_to_string signature)),
          split_dots-join_dot head_part (join_dot body_part (lib.encode_to_string signature))
              back.head_back.1,
          split_dots-join_dot body_part (lib.encode_to_string signature) back.body_back.1,
          split_dots-plain (lib.encode_to_string signature) back.seal_back.1,
          back.head_back.2,
          back.body_back.2,
          back.seal_back.2,
          parts_lem later back,
        )
        refl

  issue_lem :
      (user == 0) ≡ false
      → (device == 0) ≡ false
      → pos 1000000 ≤ℤ m.ttl
      → issue_access_token lib m now token user device
        ≡ ok (sign lib m access_header issued, truncate now +ℤ m.ttl)
  unfolding issue_access_token
  issue_lem known registered long = rw (known, registered, long_lived) refl
    where
      long_lived : leb_ℤ (truncate now +ℤ m.ttl) (truncate now) ≡ false
      long_lived = ground (arith, +ℤ_parts (truncate now) m.ttl)

  -- For an account, a device and a token identifier that are not nil, at an instant after 1970, with a
  -- lifetime of a second or more, and if base64, encoding/json and uuid read back what they wrote:
  -- issuing succeeds, and at each later instant before the second in which the token expires, its
  -- validation answers the identity and the instants that it was issued with.
  pub issue_access_token-validate :
      (later : Time)
      → ReadsBack
      → (user == 0) ≡ false
      → (device == 0) ≡ false
      → (token == 0) ≡ false
      → unix_epoch <ℤ seconds now
      → pos 1000000 ≤ℤ m.ttl
      → now ≤ℤ later
      → later <ℤ truncate (truncate now +ℤ m.ttl)
      → (text : String) × (issue_access_token lib m now token user device
          ≡ ok (text, truncate now +ℤ m.ttl))
        × (validate_access_token lib m later text ≡ ok issued_claims)
  issue_access_token-validate later back known registered drawn since long order live = (
    sign lib m access_header issued,
    issue_lem known registered long,
    split_lem later back
        ∙ ap accepted (claims_lem later back known registered drawn since long order live),
  )
