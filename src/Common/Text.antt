-- ===== src/Common/Text.antt =====
-- What the program uses of Go's `strings` package: equality and `strings.TrimSpace`.
use Prim.Native.Nat.{ℕ}
use Prim.Native.Char.{Char, code}
use Prim.Native.String.{String}
use text.Mathlib.Text.{◌==◌}
use text.Mathlib.TextEquality.{eq_iff}
use text.Mathlib.TextPositions.{eq_refl}
use mathlib.Core.Path.{◌≡◌, refl}
use mathlib.Core.Bool.{Bool, true, false, ◌&&◌, ◌||◌}
use mathlib.Core.Option.{Option, none, some}
use stok_sync.Common.Tests.{leb, ◌==◌ as nat_eq, if◌then◌else◌}

-- `a == b` on Go strings.
abbrev pub str_eq : String → String → Bool
str_eq a b = a == b

pub str_eq_lem : (a b : String) → str_eq a b ≡ true → a ≡ b
str_eq_lem a b = (eq_iff a b).0

pub str_eq_refl : (a : String) → str_eq a a ≡ true
str_eq_refl a = eq_refl a

-- `unicode.IsSpace`.
is_space : ℕ → Bool
is_space c =
    (leb 9 c && leb c 13)
    || nat_eq c 32
    || nat_eq c 0x85
    || nat_eq c 0xa0
    || nat_eq c 0x1680
    || (leb 0x2000 c && leb c 0x200a)
    || nat_eq c 0x2028
    || nat_eq c 0x2029
    || nat_eq c 0x202f
    || nat_eq c 0x205f
    || nat_eq c 0x3000

trim_left : String → String
unfolding is_space
trim_left String.[] = ""
trim_left (String.◌∷◌ c s) =
    let rest = trim_left s in if is_space (code c) then rest else String.◌∷◌ c s

-- A blank is dropped from the end when nothing but blanks follows it.
keep_right : Char → String → String
unfolding is_space
keep_right c String.[] = if is_space (code c) then "" else String.◌∷◌ c ""
keep_right c (String.◌∷◌ d s) = String.◌∷◌ c (String.◌∷◌ d s)

trim_right : String → String
unfolding keep_right
trim_right String.[] = ""
trim_right (String.◌∷◌ c s) = keep_right c (trim_right s)

-- `strings.TrimSpace` (and `bytes.TrimSpace`).
unfoldable pub trim_space : String → String
unfolding trim_left trim_right
trim_space s = trim_right (trim_left s)

-- `normalizeOptionalString` of products/service.go and movements/service.go, and
-- `normalizeBarcode` of sync/operations.go, which have one body.
unfoldable pub normalize_optional_string : Option String → Option String
unfolding trim_space
normalize_optional_string none = none
normalize_optional_string (some value) =
    let trimmed = trim_space value in if str_eq trimmed "" then none else some trimmed

trimmed : trim_space "  a b\n" ≡ "a b"
unfolding trim_space
trimmed = refl

abbrev pub starts_with_brace : String → Bool
starts_with_brace String.[] = false
starts_with_brace (String.◌∷◌ c s) = nat_eq (code c) b'{'

abbrev last_or : Char → String → Char
last_or c String.[] = c
last_or c (String.◌∷◌ d s) = last_or d s

abbrev pub ends_with_brace : String → Bool
ends_with_brace String.[] = false
ends_with_brace (String.◌∷◌ c s) = nat_eq (code (last_or c s)) b'}'

-- `strings.ContainsAny(s, chars)` at the characters that pass the test.
abbrev pub contains_char : (ℕ → Bool) → String → Bool
contains_char p String.[] = false
contains_char p (String.◌∷◌ c s) = p (code c) || contains_char p s

-- One of "\r\n\t ".
abbrev pub is_separator : ℕ → Bool
is_separator c = nat_eq c 13 || nat_eq c 10 || nat_eq c 9 || nat_eq c 32
