-- ===== src/Url/Percent/Laws.antt =====
-- Normalised percent escapes: what they look like, and that a second pass changes nothing.
use webintel.Prelude.{
  ℕ, ◌+◌, ◌*◌, ◌<◌, ◌≡◌, ◌≢◌, refl, ap, ap₂, subst, true, false, ◌&&◌, [], ◌∷◌, arith, ◌==◌, nat_Eq,
  Text, Bool-cases, inl, inr,
}
use webintel.Prelude.Result.{ok}
use webintel.Url.Percent.{
  is_unreserved, is_hex, hex_value, hex_digit, has_invalid_escape, replace, sub_escapes,
  normalize_percent_encoding,
}

-- Each "%" begins an escape in upper case of a byte that is no unreserved character.
pub data IsCanonical : Text → Type 0 where
  nil : IsCanonical []
  plain : {c : ℕ} {s : Text} → c ≢ b'%' → IsCanonical s → IsCanonical (c ∷ s)
  escape :
      {p a b : ℕ} {s : Text} (h l : ℕ)
      → p ≡ b'%'
      → a ≡ hex_digit h
      → b ≡ hex_digit l
      → h < 16
      → l < 16
      → is_unreserved (h * 16 + l) ≡ false
      → IsCanonical s
      → IsCanonical (p ∷ a ∷ b ∷ s)

hex_digit-is_hex : (n : ℕ) → n < 16 → is_hex (hex_digit n) ≡ true
unfolding is_hex hex_digit
hex_digit-is_hex n h = ground arith

pub hex_digit_above : (n : ℕ) → 47 < hex_digit n
unfolding hex_digit
hex_digit_above n = ground arith

hex_value-hex_digit : (n : ℕ) → n < 16 → hex_value (hex_digit n) ≡ n
unfolding hex_value hex_digit
hex_value-hex_digit n h = ground arith

hex_value-lt : (c : ℕ) → is_hex c ≡ true → hex_value c < 16
unfolding is_hex hex_value
hex_value-lt c h = ground arith

replace-IsCanonical :
    (h l : ℕ) (s : Text) → h < 16 → l < 16 → IsCanonical s → IsCanonical (replace (h * 16 + l) s)
unfolding replace
replace-IsCanonical h l s hh hl k = elim (Bool-cases (is_unreserved (h * 16 + l))) [
  | inl un ↦ rw un (plain (ground arith) k)
  | inr re ↦
      rw re (escape h l refl (ap hex_digit (omega arith)) (ap hex_digit (omega arith)) hh hl re k)
]

pub sub_escapes-IsCanonical :
    (s : Text) → has_invalid_escape s ≡ false → IsCanonical (sub_escapes s)
unfolding sub_escapes has_invalid_escape
sub_escapes-IsCanonical [] h = nil
sub_escapes-IsCanonical (c ∷ []) h = plain (ground arith) nil
sub_escapes-IsCanonical (c ∷ a ∷ []) h = plain (ground arith) (plain (ground arith) nil)
sub_escapes-IsCanonical (c ∷ a ∷ b ∷ s) h = elim (Bool-cases (c == b'%' && is_hex a && is_hex b)) [
  | inl e ↦ rw e (
      replace-IsCanonical (hex_value a) (hex_value b) (sub_escapes s)
        (hex_value-lt a (ground arith)) (hex_value-lt b (ground arith))
        (sub_escapes-IsCanonical s (ground arith)))
  | inr e ↦ rw e (plain (ground arith) (sub_escapes-IsCanonical (a ∷ b ∷ s) (ground arith)))
]

IsCanonical-valid : {s : Text} → IsCanonical s → has_invalid_escape s ≡ false
unfolding has_invalid_escape
IsCanonical-valid nil = refl
IsCanonical-valid (plain ne k) = ground (arith, IsCanonical-valid k)
IsCanonical-valid (escape h l ep ea eb hh hl re k) = ground (
  arith,
  IsCanonical-valid k,
  hex_digit-is_hex h hh,
  hex_digit-is_hex l hl,
  hex_digit_above h,
  hex_digit_above l,
)

replace-kept :
    (h l : ℕ) (s : Text)
    → h < 16
    → l < 16
    → is_unreserved (h * 16 + l) ≡ false
    → replace (h * 16 + l) s ≡ b'%' ∷ hex_digit h ∷ hex_digit l ∷ s
unfolding replace
replace-kept h l s hh hl re =
    rw re (
      ap₂ (λ (x y : ℕ). b'%' ∷ x ∷ y ∷ s) (ap hex_digit (omega arith)) (ap hex_digit (omega arith)))

pub IsCanonical-fixed : {s : Text} → IsCanonical s → sub_escapes s ≡ s
unfolding sub_escapes
IsCanonical-fixed nil = refl
IsCanonical-fixed (plain {s = []} ne k) = refl
IsCanonical-fixed (plain {s = a ∷ []} ne k) = refl
IsCanonical-fixed (plain {c} {s = a ∷ b ∷ s} ne k) = ground (arith, IsCanonical-fixed k)
IsCanonical-fixed (escape {p} {a} {b} {s} h l ep ea eb hh hl re k) =
    rw (ep, ea, eb, hex_digit-is_hex h hh, hex_digit-is_hex l hl)
      (rw (hex_value-hex_digit h hh, hex_value-hex_digit l hl, IsCanonical-fixed k)
        (replace-kept h l s hh hl re))

pub normalize_percent_encoding-IsCanonical :
    (s t : Text) → normalize_percent_encoding s ≡ ok t → IsCanonical t
unfolding normalize_percent_encoding
normalize_percent_encoding-IsCanonical s t h =
    let valid : has_invalid_escape s ≡ false = ground arith in
    let same : sub_escapes s ≡ t = ground arith in
    subst IsCanonical same (sub_escapes-IsCanonical s valid)

pub IsCanonical-ok : {t : Text} → IsCanonical t → normalize_percent_encoding t ≡ ok t
unfolding normalize_percent_encoding
IsCanonical-ok k = rw (IsCanonical-valid k) (ap ok (IsCanonical-fixed k))

-- Normalising percent escapes a second time succeeds and changes nothing.
pub normalize_percent_encoding_idem :
    (s t : Text) → normalize_percent_encoding s ≡ ok t → normalize_percent_encoding t ≡ ok t
normalize_percent_encoding_idem s t h =
    IsCanonical-ok (normalize_percent_encoding-IsCanonical s t h)

sub_escapes-slash : (s : Text) → sub_escapes (b'/' ∷ s) ≡ b'/' ∷ sub_escapes s
unfolding sub_escapes
sub_escapes-slash [] = refl
sub_escapes-slash (a ∷ []) = refl
sub_escapes-slash (a ∷ b ∷ s) = refl

pub encoded-slash :
    (s t : Text) → normalize_percent_encoding (b'/' ∷ s) ≡ ok t → t ≡ b'/' ∷ sub_escapes s
unfolding normalize_percent_encoding
encoded-slash s t h = ground (arith, h, sub_escapes-slash s)
