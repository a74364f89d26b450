-- ===== src/Url/Percent.antt =====
-- _normalize_percent_encoding
use webintel.Prelude.{
  ℕ, ◌+◌, ◌-◌, ◌*◌, ◌/◌, ◌%◌, Bool, true, false, not, ◌&&◌, ◌||◌, List, [], ◌∷◌, ltb, leb, ◌==◌,
  nat_Eq, if◌then◌else◌, Text,
}
use webintel.Prelude.Result.{Result, ok, err, ◌>>=◌, ◌>>◌, raise_if}
use webintel.Py.Str.{is_digit, is_alnum}
use webintel.Url.Errors.{UrlError, normalization_error, invalid_percent_escape}
pub mod Laws
pub mod Chars

-- UNRESERVED_CHARACTERS
pub is_unreserved : ℕ → Bool
is_unreserved c = is_alnum c || c == b'-' || c == b'.' || c == b'_' || c == b'~'

-- [0-9a-fA-F]
pub is_hex : ℕ → Bool
is_hex c = is_digit c || (leb b'A' c && leb c b'F') || (leb b'a' c && leb c b'f')

-- int(digit, 16)
pub hex_value : ℕ → ℕ
hex_value c = if is_digit c then c - b'0' else if leb b'a' c then c - b'a' + 10 else c - b'A' + 10

-- A digit of f"{byte:02X}".
pub hex_digit : ℕ → ℕ
hex_digit n = if ltb n 10 then b'0' + n else b'A' + (n - 10)

abbrev pub two_hex : Text → Bool
two_hex (a ∷ b ∷ s) = is_hex a && is_hex b
two_hex _ = false

-- INVALID_PERCENT_ESCAPE.search(value)
unfoldable pub has_invalid_escape : Text → Bool
has_invalid_escape [] = false
has_invalid_escape (c ∷ s) = (c == b'%' && not (two_hex s)) || has_invalid_escape s

-- The replacement of one escape, in front of the rest of the text.
replace : ℕ → Text → Text
unfolding is_unreserved hex_digit
replace byte s =
    if is_unreserved byte
    then byte ∷ s
    else b'%' ∷ hex_digit (byte / 16) ∷ hex_digit (byte % 16) ∷ s

-- PERCENT_ESCAPE.sub(replace, value): from the left, and a match is not read again.
pub sub_escapes : Text → Text
sub_escapes [] = []
sub_escapes (c ∷ []) = c ∷ []
sub_escapes (c ∷ a ∷ []) = c ∷ a ∷ []
sub_escapes (c ∷ a ∷ b ∷ s) =
    let matched = replace (hex_value a * 16 + hex_value b) (sub_escapes s) in
    let passed = c ∷ sub_escapes (a ∷ b ∷ s) in
    if c == b'%' && is_hex a && is_hex b then matched else passed

unfoldable pub normalize_percent_encoding : Text → Result UrlError Text
unfolding has_invalid_escape sub_escapes replace hex_value is_hex
normalize_percent_encoding value = do
  raise_if (has_invalid_escape value) (normalization_error invalid_percent_escape)
  ok (sub_escapes value)
