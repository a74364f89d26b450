-- ===== src/Samples/Codec.antt =====
-- A library with an encoding of query parameters that reads back whatever it wrote: each character
-- is a "c" and as many "a" as its code point.
use webintel.Prelude.{
  ℕ, zero, suc, ◌≤◌, ◌≡◌, ◌≢◌, refl, ap, ap₂, ◌∙◌, inl, inr, true, false, List, [], ◌∷◌, ◌++◌, ◌==◌,
  nat_Eq, text_Eq, text_eq_iff, Text, none, some, All, is_some, if◌then◌else◌, arith, Bool-cases,
  append-nil,
}
use webintel.Py.Str.{ascii_lower, lower_char, is_upper}
use webintel.Py.Tables.{Python, v4}
use webintel.Url.Percent.{has_invalid_escape}
use webintel.Url.Host.{is_public_hostname}
use webintel.Url.Normalize.Standard.{IsQueryChar, IsStandard}
use webintel.Samples.{sample_address}

unary : ℕ → Text → Text
unary zero s = s
unary (suc n) s = b'a' ∷ unary n s

write_text : Text → Text → Text
unfolding unary
write_text [] rest = rest
write_text (c ∷ s) rest = b'c' ∷ unary c (write_text s rest)

unfoldable pub write_items : List (Text × Text) → Text
unfolding write_text
write_items [] = []
write_items ((k, v) ∷ ps) = b'&' ∷ write_text k (b'=' ∷ write_text v (write_items ps))

-- What has been read, from the right: a number, two texts, and the parameters.
abbrev Read : Type 0
Read = ℕ × Text × Text × List (Text × Text)

abbrev read_one : ℕ → Read → Read
read_one c (n, s, t, ps) =
    if c == b'a'
    then (suc n, s, t, ps)
    else if c == b'c'
    then (0, n ∷ s, t, ps)
    else if c == b'='
    then (0, [], s, ps)
    else (0, [], [], (s, t) ∷ ps)

read : Text → Read
read [] = (0, [], [], [])
read (c ∷ s) = read_one c (read s)

unfoldable pub read_items : Text → List (Text × Text)
unfolding read
read_items s = (read s).3

read-unary :
    (m : ℕ) (s a b : Text) (ps : List (Text × Text))
    → read s ≡ (0, a, b, ps)
    → read (unary m s) ≡ (m, a, b, ps)
unfolding read unary
read-unary zero s a b ps h = h
read-unary (suc m) s a b ps h = rw (read-unary m s a b ps h) refl

read-text :
    (t s a b : Text) (ps : List (Text × Text))
    → read s ≡ (0, a, b, ps)
    → read (write_text t s) ≡ (0, t ++ a, b, ps)
unfolding read write_text
read-text [] s a b ps h = h
read-text (c ∷ t) s a b ps h =
    ap (read_one b'c') (read-unary c (write_text t s) (t ++ a) b ps (read-text t s a b ps h))

read-items : (ps : List (Text × Text)) → read (write_items ps) ≡ (0, [], [], ps)
unfolding read write_items
read-items [] = refl
read-items ((k, v) ∷ ps) =
    let values = read-text v (write_items ps) [] [] ps (read-items ps) in
    let keys =
      read-text k (b'=' ∷ write_text v (write_items ps)) [] (v ++ []) ps
        (ap (read_one b'=') values) in
    ap (read_one b'&') keys ∙ ap₂ (λ k v. (0, [], [], (k, v) ∷ ps)) (append-nil k) (append-nil v)

-- A character that needs no escape and is none.
abbrev IsWritten : ℕ → Type 0
IsWritten c = (c ≢ b'%') × IsQueryChar c

unary-All : (n : ℕ) (s : Text) → All IsWritten s → All IsWritten (unary n s)
unfolding unary
unary-All zero s h = h
unary-All (suc n) s h = ((omega arith, (omega arith, refl)), unary-All n s h)

write_text-All : (t s : Text) → All IsWritten s → All IsWritten (write_text t s)
unfolding write_text
write_text-All [] s h = h
write_text-All (c ∷ t) s h =
    ((omega arith, (omega arith, refl)), unary-All c (write_text t s) (write_text-All t s h))

write_items-All : (ps : List (Text × Text)) → All IsWritten (write_items ps)
unfolding write_items
write_items-All [] = tt
write_items-All ((k, v) ∷ ps) = (
  (omega arith, (omega arith, refl)),
  write_text-All k _
      ((omega arith, (omega arith, refl)), write_text-All v (write_items ps) (write_items-All ps)),
)

IsWritten-valid : (s : Text) → All IsWritten s → has_invalid_escape s ≡ false
unfolding has_invalid_escape
IsWritten-valid [] h = refl
IsWritten-valid (c ∷ s) ((ne, _), h) = ground (arith, ne, IsWritten-valid s h)

IsWritten-chars : (s : Text) → All IsWritten s → All IsQueryChar s
IsWritten-chars [] h = tt
IsWritten-chars (c ∷ s) ((_, k), h) = (k, IsWritten-chars s h)

unfoldable pub codec_python : Python
codec_python = record {
  unescape = λ s. s;
  lower = ascii_lower;
  int = λ s. none;
  idna = λ s. some s;
  is_valid_netloc = λ s. true;
  urljoin = λ base url. some url;
  urldefrag = λ url. some url;
  unquote = λ s. s;
  parse_qsl = read_items;
  urlencode = write_items;
  ip_address = λ s. if s == sample_address then some (v4 1572395042) else none;
  str_address = λ a. sample_address;
  is_global = λ a. true;
}

ascii_lower-fixed : (s : Text) → All (λ c. (is_upper c ≡ false) × (c ≤ 127)) s → ascii_lower s ≡ s
unfolding lower_char
ascii_lower-fixed [] h = refl
ascii_lower-fixed (c ∷ s) ((k, _), h) = rw (k, ascii_lower-fixed s h) refl

sample_address-public : is_public_hostname sample_address ≡ true
unfolding is_public_hostname
sample_address-public = refl

only_sample :
    (s : Text)
    → is_some (if s == sample_address then some (v4 1572395042) else none) ≡ true
    → is_public_hostname s ≡ true
only_sample s h = elim (Bool-cases (s == sample_address)) [
  | inl e ↦ rw ((text_eq_iff s sample_address).0 e) sample_address-public
  | inr e ↦ absurd (ground (arith, rw e at h))
]

pub codec_python-IsStandard : IsStandard codec_python
unfolding codec_python read_items
codec_python-IsStandard = record {
  lower_fixed = ascii_lower-fixed;
  idna_fixed = λ s h. refl;
  valid_netloc = λ s h. refl;
  dotted = λ s h k. only_sample s h;
  decoded = λ ps. ap (λ (r : Read). r.3) (read-items ps);
  escaped = λ ps. IsWritten-valid (write_items ps) (write_items-All ps);
  query_chars = λ ps. IsWritten-chars (write_items ps) (write_items-All ps);
}
