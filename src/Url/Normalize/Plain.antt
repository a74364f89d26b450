-- ===== src/Url/Normalize/Plain.antt =====
-- The parts of a URL have no character that urlsplit removes, and are in lower case where they are
-- lowered.
use webintel.Prelude.{
  ℕ, ◌≤◌, ◌≡◌, refl, ◌⊎◌, inl, inr, Bool, true, false, [], ◌∷◌, ◌++◌, ◌==◌, nat_Eq, text_Eq, Text,
  Option, some, none, All, All-append, if◌then◌else◌, Bool-cases, is_empty, arith, text_eq_iff,
}
use webintel.Prelude.Result.{ok}
use webintel.Py.Str.{is_upper}
use webintel.Py.Tables.{Python, IpAddress}
use webintel.Py.Split.{urlunsplit, with_slash, after_mark, is_unsafe}
use webintel.Url.Percent.Chars.{IsPathChar}
use webintel.Url.Host.{ensure_public_address}
use webintel.Url.Host.Names.{IsHostChar}
use webintel.Url.Normalize.{is_allowed_scheme, check_direct, host_of, http, https}
use webintel.Url.Normalize.Netloc.{IsNetlocChar}
use webintel.Url.Normalize.Standard.{IsQueryChar, IsStandard}

abbrev pub IsSafe : ℕ → Type 0
IsSafe c = is_unsafe c ≡ false

pub path-IsSafe : (s : Text) → All IsPathChar s → All IsSafe s
path-IsSafe [] h = tt
path-IsSafe (c ∷ s) ((a, (b, k)), h) = (k, path-IsSafe s h)

pub query-IsSafe : (s : Text) → All IsQueryChar s → All IsSafe s
query-IsSafe [] h = tt
query-IsSafe (c ∷ s) ((a, k), h) = (k, query-IsSafe s h)

pub netloc-IsSafe : (s : Text) → All IsNetlocChar s → All IsSafe s
netloc-IsSafe [] h = tt
netloc-IsSafe (c ∷ s) (k, h) = (ground (arith, k), netloc-IsSafe s h)

pub after_mark-IsSafe : (s : Text) → All IsSafe s → All IsSafe (after_mark b'?' s)
after_mark-IsSafe [] h = tt
after_mark-IsSafe (c ∷ s) h = (refl, h)

pub scheme-IsSafe : (s : Text) → (s ≡ http) ⊎ (s ≡ https) → All IsSafe s
scheme-IsSafe s (inl e) = rw e (refl, (refl, (refl, (refl, tt))))
scheme-IsSafe s (inr e) = rw e (refl, (refl, (refl, (refl, (refl, tt)))))

pub colon-IsSafe :
    (s : Text) → All IsSafe s → All IsSafe (if is_empty s then [] else s ++ b':' ∷ [])
colon-IsSafe [] h = tt
colon-IsSafe (c ∷ s) (h, k) = (h, All-append IsSafe s (b':' ∷ []) k (refl, tt))

pub allowed-cases : (s : Text) → is_allowed_scheme s ≡ true → (s ≡ http) ⊎ (s ≡ https)
allowed-cases s h = elim (Bool-cases (s == http)) [
  | inl e ↦ inl ((text_eq_iff s http).0 e)
  | inr e ↦ inr ((text_eq_iff s https).0 (ground (arith, h, e)))
]

pub lower-scheme :
    (py : Python) → IsStandard py → (s : Text) → (s ≡ http) ⊎ (s ≡ https) → py.lower s ≡ s
lower-scheme py std s (inl e) = std.lower_fixed s (
    rw e (
      (refl, omega arith),
      ((refl, omega arith), ((refl, omega arith), ((refl, omega arith), tt))),
    ))
lower-scheme py std s (inr e) = std.lower_fixed s (
    rw e (
      (refl, omega arith),
      (
        (refl, omega arith),
        ((refl, omega arith), ((refl, omega arith), ((refl, omega arith), tt))),
      ),
    ))

pub host-lower : (s : Text) → All IsHostChar s → All (λ c. (is_upper c ≡ false) × (c ≤ 127)) s
host-lower [] h = tt
host-lower (c ∷ s) (h, k) = ((ground (arith, h), ground (arith, h)), host-lower s k)

pub check_direct-ok :
    (py : Python) (reject : Bool) (a : Option IpAddress)
    → ((b : IpAddress) → reject ≡ true → a ≡ some b → py.is_global b ≡ true)
    → check_direct py reject a ≡ ok tt
unfolding ensure_public_address
check_direct-ok py true none f = refl
check_direct-ok py true (some b) f = rw (f b refl refl) refl
check_direct-ok py false a f = refl

pub host_of-some : (host : Text) → is_empty host ≡ false → host_of (some host) ≡ some host
host_of-some [] h = absurd (ground (arith, h))
host_of-some (c ∷ s) h = refl

pub urlunsplit-IsSafe :
    (scheme netloc path query : Text)
    → All IsSafe scheme
    → All IsSafe netloc
    → All IsSafe (with_slash path)
    → All IsSafe query
    → All IsSafe (urlunsplit scheme netloc path query)
unfolding urlunsplit
urlunsplit-IsSafe scheme netloc path query h k l m =
    let start = if is_empty scheme then [] else scheme ++ b':' ∷ [] in
    All-append IsSafe (start ++ b'/' ∷ b'/' ∷ netloc ++ with_slash path) (after_mark b'?' query)
      (All-append IsSafe (start ++ b'/' ∷ b'/' ∷ netloc) (with_slash path)
        (All-append IsSafe start (b'/' ∷ b'/' ∷ netloc) (colon-IsSafe scheme h) (refl, (refl, k)))
        l)
      (after_mark-IsSafe query m)
