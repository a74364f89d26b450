-- ===== src/Py/Str/Decimal.antt =====
-- `int` reads back what `str` writes of a natural number.
use webintel.Prelude.{
  ℕ, zero, suc, ◌+◌, ◌/◌, ◌%◌, ◌≤◌, ◌<◌, ◌≡◌, refl, ap, ◌∙◌, inl, inr, true, false, [], ◌∷◌, some,
  ltb, Text, all, Bool-cases, arith, is_empty,
}
use webintel.Py.Str.{is_digit, decimal_value, ascii_int, decimal_digits, decimal}

digit-is_digit : (d : ℕ) → d < 10 → is_digit (b'0' + d) ≡ true
digit-is_digit d h = ground (arith, h)

decimal_digits-digits :
    (fuel n : ℕ) (acc : Text)
    → all is_digit acc ≡ true
    → all is_digit (decimal_digits fuel n acc) ≡ true
unfolding decimal_digits
decimal_digits-digits zero n acc h = h
decimal_digits-digits (suc fuel) n acc h = elim (Bool-cases (ltb n 10)) [
  | inl e ↦ rw e (rw (digit-is_digit n (ground (arith, e))) h)
  | inr e ↦ rw e (
      decimal_digits-digits fuel (n / 10) ((b'0' + n % 10) ∷ acc)
        (rw (digit-is_digit (n % 10) (omega arith)) h))
]

ten_le : (n : ℕ) → ltb n 10 ≡ false → 10 ≤ n
ten_le n e = ground (arith, e)

-- The value read in front of `acc` is the number.
decimal_digits-value :
    (fuel n : ℕ) (acc : Text)
    → n < fuel
    → decimal_value 0 (decimal_digits fuel n acc) ≡ decimal_value n acc
unfolding decimal_digits decimal_value
decimal_digits-value zero n acc h = absurd (omega (arith, h))
decimal_digits-value (suc fuel) n acc h = elim (Bool-cases (ltb n 10)) [
  | inl e ↦ rw e (ap (λ m. decimal_value m acc) (omega arith))
  | inr e ↦ rw e (
      decimal_digits-value fuel (n / 10) ((b'0' + n % 10) ∷ acc) (omega (arith, h, ten_le n e))
      ∙ ap (λ m. decimal_value m acc) (omega arith))
]

decimal_digits_ne :
    (fuel n : ℕ) (acc : Text) → is_empty acc ≡ false → is_empty (decimal_digits fuel n acc) ≡ false
unfolding decimal_digits
decimal_digits_ne zero n acc h = h
decimal_digits_ne (suc fuel) n acc h = elim (Bool-cases (ltb n 10)) [
  | inl e ↦ rw e refl
  | inr e ↦ rw e (decimal_digits_ne fuel (n / 10) ((b'0' + n % 10) ∷ acc) refl)
]

pub decimal_ne : (n : ℕ) → is_empty (decimal n) ≡ false
unfolding decimal decimal_digits
decimal_ne n = elim (Bool-cases (ltb n 10)) [
  | inl e ↦ rw e refl
  | inr e ↦ rw e (decimal_digits_ne n (n / 10) ((b'0' + n % 10) ∷ []) refl)
]

pub decimal-digits : (n : ℕ) → all is_digit (decimal n) ≡ true
unfolding decimal
decimal-digits n = decimal_digits-digits (suc n) n [] refl

ascii_int-digits :
    (s : Text) → is_empty s ≡ false → all is_digit s ≡ true → ascii_int s ≡ some (decimal_value 0 s)
unfolding ascii_int
ascii_int-digits [] h k = ground (arith, h)
ascii_int-digits (c ∷ s) h k = rw k refl

pub ascii_int-decimal : (n : ℕ) → ascii_int (decimal n) ≡ some n
unfolding decimal decimal_value
ascii_int-decimal n =
    ascii_int-digits (decimal n) (decimal_ne n) (decimal-digits n)
    ∙ ap some (decimal_digits-value (suc n) n [] (omega arith))
