-- ===== src/Url/Percent/Chars.antt =====
-- `_normalize_percent_encoding` brings no "?", no "#", no tab and no line break into a text.
use webintel.Prelude.{
  ℕ, ◌+◌, ◌*◌, ◌/◌, ◌%◌, ◌<◌, ◌≡◌, refl, ◌≢◌, subst, inl, inr, true, false, ◌&&◌, [], ◌∷◌, ◌==◌,
  nat_Eq, Text, All, Bool-cases, arith,
}
use webintel.Prelude.Result.{ok}
use webintel.Py.Split.{is_unsafe}
use webintel.Url.Percent.{
  is_unreserved, hex_digit, is_hex, hex_value, replace, sub_escapes, normalize_percent_encoding,
}

-- A character that may stand in the path of a URL as `urlsplit` takes it apart.
abbrev pub IsPathChar : ℕ → Type 0
IsPathChar c = (c ≢ b'?') × ((c ≢ b'#') × (is_unsafe c ≡ false))

unreserved-IsPathChar : (c : ℕ) → is_unreserved c ≡ true → IsPathChar c
unfolding is_unreserved
unreserved-IsPathChar c h = (ground (arith, h), (ground (arith, h), ground (arith, h)))

hex_digit-IsPathChar : (n : ℕ) → n < 16 → IsPathChar (hex_digit n)
unfolding hex_digit
hex_digit-IsPathChar n h = (ground (arith, h), (ground (arith, h), ground (arith, h)))

replace-All :
    (x y : ℕ) (s : Text)
    → x < 16
    → y < 16
    → All IsPathChar s
    → All IsPathChar (replace (x * 16 + y) s)
unfolding replace
replace-All x y s hx hy h = elim (Bool-cases (is_unreserved (x * 16 + y))) [
  | inl e ↦ rw e (unreserved-IsPathChar (x * 16 + y) e, h)
  | inr e ↦ rw e (
    (omega arith, (omega arith, refl)),
    (
      hex_digit-IsPathChar ((x * 16 + y) / 16) (omega arith),
      (hex_digit-IsPathChar ((x * 16 + y) % 16) (omega arith), h),
    ),
  )
]

hex_value_lt : (a : ℕ) → is_hex a ≡ true → hex_value a < 16
unfolding is_hex hex_value
hex_value_lt a h = ground (arith, h)

sub_escapes-All : (s : Text) → All IsPathChar s → All IsPathChar (sub_escapes s)
unfolding sub_escapes
sub_escapes-All [] h = tt
sub_escapes-All (c ∷ []) h = h
sub_escapes-All (c ∷ a ∷ []) h = h
sub_escapes-All (c ∷ a ∷ b ∷ s) (h, (k, (l, hs))) =
    elim (Bool-cases (c == b'%' && is_hex a && is_hex b)) [
      | inl e ↦ rw e (
          replace-All (hex_value a) (hex_value b) (sub_escapes s)
            (hex_value_lt a (ground (arith, e))) (hex_value_lt b (ground (arith, e)))
            (sub_escapes-All s hs))
      | inr e ↦ rw e (h, sub_escapes-All (a ∷ b ∷ s) (k, (l, hs)))
    ]

pub normalize_percent_encoding-All :
    (s t : Text) → normalize_percent_encoding s ≡ ok t → All IsPathChar s → All IsPathChar t
unfolding normalize_percent_encoding
normalize_percent_encoding-All s t h k =
    let same : sub_escapes s ≡ t = ground arith in subst (All IsPathChar) same (sub_escapes-All s k)
