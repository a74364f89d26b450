-- ===== src/Py/Str.antt =====
-- Methods of Python's `str`, on lists of code points.
use webintel.Prelude.{
  ℕ, zero, suc, ◌+◌, ◌-◌, ◌*◌, ◌/◌, ◌%◌, Bool, true, false, ◌&&◌, ◌||◌, List, [], ◌∷◌, ◌++◌, Option,
  none, some, ltb, leb, ◌==◌, nat_Eq, text_Eq, if◌then◌else◌, Text, all, map,
}
pub mod Words
pub mod Chars
pub mod Decimal

-- `str.isspace` of one character.
unfoldable pub is_space : ℕ → Bool
is_space c =
    (leb 9 c && leb c 13)
    || (leb 28 c && leb c 32)
    || c == 133
    || c == 160
    || c == 5760
    || (leb 8192 c && leb c 8202)
    || c == 8232
    || c == 8233
    || c == 8239
    || c == 8287
    || c == 12288

-- s.lstrip(chars), s.rstrip(chars), s.strip(chars), the set of characters given by its test
unfoldable pub lstrip : (ℕ → Bool) → Text → Text
lstrip p [] = []
lstrip p (c ∷ s) = if p c then lstrip p s else c ∷ s

abbrev pub rcons : (ℕ → Bool) → ℕ → Text → Text
rcons p c [] = if p c then [] else c ∷ []
rcons p c (d ∷ s) = c ∷ d ∷ s

unfoldable pub rstrip : (ℕ → Bool) → Text → Text
rstrip p [] = []
rstrip p (c ∷ s) = rcons p c (rstrip p s)

unfoldable pub strip : (ℕ → Bool) → Text → Text
unfolding lstrip rstrip
strip p s = rstrip p (lstrip p s)

-- s.partition(c): the text before, whether the separator was found, the text after
unfoldable pub partition : ℕ → Text → Text × Bool × Text
partition c [] = ([], false, [])
partition c (x ∷ s) = let r = partition c s in if x == c then ([], true, s) else (x ∷ r.0, r.1, r.2)

-- s.rpartition(c)
unfoldable pub rpartition : ℕ → Text → Text × Bool × Text
rpartition c [] = ([], false, [])
rpartition c (x ∷ s) =
    let r = rpartition c s in
    if r.1 then (x ∷ r.0, true, r.2) else if x == c then ([], true, s) else ([], false, x ∷ s)

abbrev pub cons_first : ℕ → List Text → List Text
cons_first c [] = (c ∷ []) ∷ []
cons_first c (s ∷ ss) = (c ∷ s) ∷ ss

-- s.split(c)
unfoldable pub split : ℕ → Text → List Text
split c [] = [] ∷ []
split c (x ∷ s) = if x == c then [] ∷ split c s else cons_first x (split c s)

-- chr(c).join(parts)
unfoldable pub join : ℕ → List Text → Text
join c [] = []
join c (s ∷ []) = s
join c (s ∷ t ∷ ss) = s ++ c ∷ join c (t ∷ ss)

-- The words of s.split(), with no argument.
push_word : Text → List Text → List Text
push_word [] ws = ws
push_word (c ∷ w) ws = (c ∷ w) ∷ ws

words_from : Text → Text → List Text
words_from w [] = push_word w []
words_from w (c ∷ s) =
    if is_space c then push_word w (words_from [] s) else words_from (w ++ c ∷ []) s

unfoldable pub words : Text → List Text
unfolding words_from push_word is_space
words s = words_from [] s

-- s.splitlines(): is the character before a carriage return, and the line so far.
abbrev is_line_break : ℕ → Bool
is_line_break c =
    (leb 10 c && leb c 13) || (leb 28 c && leb c 30) || c == 133 || c == 8232 || c == 8233

lines_from : Bool → Text → Text → List Text
unfolding push_word
lines_from after_cr line [] = push_word line []
lines_from after_cr line (c ∷ s) =
    let next = lines_from (c == 13) [] s in
    let longer = lines_from false (line ++ c ∷ []) s in
    if after_cr && c == 10 then next else if is_line_break c then line ∷ next else longer

unfoldable pub split_lines : Text → List Text
unfolding lines_from
split_lines s = lines_from false [] s

-- s.startswith(p), s.endswith(p)
unfoldable pub starts_with : Text → Text → Bool
starts_with s [] = true
starts_with [] (c ∷ p) = false
starts_with (x ∷ s) (c ∷ p) = x == c && starts_with s p

unfoldable pub ends_with : Text → Text → Bool
ends_with [] p = [] == p
ends_with (x ∷ s) p = (x ∷ s) == p || ends_with s p

-- s.removeprefix(p)
abbrev pub after : Text → Text → Text
after s [] = s
after [] (c ∷ p) = []
after (x ∷ s) (c ∷ p) = after s p

unfoldable pub remove_prefix : Text → Text → Text
unfolding starts_with
remove_prefix s p = if starts_with s p then after s p else s

-- sub in s
unfoldable pub has_sub : Text → Text → Bool
unfolding starts_with
has_sub [] p = starts_with [] p
has_sub (x ∷ s) p = starts_with (x ∷ s) p || has_sub s p

-- s.count(c)
unfoldable pub count : ℕ → Text → ℕ
count c [] = 0
count c (x ∷ s) = if x == c then suc (count c s) else count c s

abbrev pub is_digit : ℕ → Bool
is_digit c = leb b'0' c && leb c b'9'

abbrev pub is_upper : ℕ → Bool
is_upper c = leb b'A' c && leb c b'Z'

abbrev pub is_lower : ℕ → Bool
is_lower c = leb b'a' c && leb c b'z'

abbrev pub is_alnum : ℕ → Bool
is_alnum c = is_digit c || is_upper c || is_lower c

-- str.lower on an ASCII text.
unfoldable pub lower_char : ℕ → ℕ
lower_char c = if is_upper c then c + 32 else c

abbrev pub ascii_lower : Text → Text
ascii_lower = map lower_char

-- int(s) on ASCII digits
pub decimal_value : ℕ → Text → ℕ
decimal_value n [] = n
decimal_value n (c ∷ s) = decimal_value (n * 10 + (c - b'0')) s

-- s.isdigit() and s.isascii(), then int(s)
unfoldable pub ascii_int : Text → Option ℕ
unfolding decimal_value
ascii_int [] = none
ascii_int (c ∷ s) = if all is_digit (c ∷ s) then some (decimal_value 0 (c ∷ s)) else none

-- str(n): the digits of n, with a fuel that bounds their number
pub decimal_digits : ℕ → ℕ → Text → Text
decimal_digits zero n acc = acc
decimal_digits (suc fuel) n acc =
    let rest = decimal_digits fuel (n / 10) ((b'0' + n % 10) ∷ acc) in
    if ltb n 10 then (b'0' + n) ∷ acc else rest

unfoldable pub decimal : ℕ → Text
unfolding decimal_digits
decimal n = decimal_digits (suc n) n []
