-- ===== src/Url/Normalize/Standard.antt =====
-- What normalisation relies on of the standard library, and the normal forms of a path and a query.
use webintel.Prelude.{
  ℕ, ◌≤◌, ◌≡◌, ◌≢◌, refl, subst, true, false, List, [], ◌∷◌, nat_Eq, text_Eq, Text, some, All,
  contains, is_some,
}
use webintel.Prelude.Result.{ok, ok-injective}
use webintel.Py.Str.{is_upper}
use webintel.Py.Tables.{Python}
use webintel.Py.Split.{is_unsafe}
use webintel.Py.Split.Laws.{IsRooted}
use webintel.Url.Path.{normalize_path}
use webintel.Url.Path.Laws.{IsNormalPath, root, one_slash, two_slashes}
use webintel.Url.Path.Fixed.{normalize_path-IsNormalPath, normalize_path_idem}
use webintel.Url.Path.Chars.{normalize_path-All}
use webintel.Url.Percent.{has_invalid_escape}
use webintel.Url.Percent.Chars.{IsPathChar}
use webintel.Url.Query.{normalize_query, kept_items}
use webintel.Url.Query.Laws.{normalize_query-eq-ok, normalize_query_canonical}
use webintel.Url.Host.{is_public_hostname}
use webintel.Url.Normalize.Netloc.{IsNetlocChar}

-- A character that `urlencode` writes.
abbrev pub IsQueryChar : ℕ → Type 0
IsQueryChar c = (c ≢ b'#') × (is_unsafe c ≡ false)

-- What is relied on of the standard library.
pub record IsStandard (py : Python) : Type 0 where
  -- A text without capital letters, in ASCII, is in lower case.
  pub lower_fixed : (s : Text) → All (λ c. (is_upper c ≡ false) × (c ≤ 127)) s → py.lower s ≡ s
  -- The IDNA codec passes a public host name through.
  pub idna_fixed : (s : Text) → is_public_hostname s ≡ true → py.idna s ≡ some s
  -- A network location in ASCII without brackets is valid.
  pub valid_netloc : (s : Text) → All IsNetlocChar s → py.is_valid_netloc s ≡ true
  -- An address without a colon is an IPv4 address, four numbers joined by dots.
  pub dotted :
      (s : Text)
      → is_some (py.ip_address s) ≡ true
      → contains s b':' ≡ false
      → is_public_hostname s ≡ true
  -- What `urlencode` writes is decoded, and is made of characters that it does not escape.
  pub decoded : (ps : List (Text × Text)) → py.parse_qsl (py.urlencode ps) ≡ ps
  pub escaped : (ps : List (Text × Text)) → has_invalid_escape (py.urlencode ps) ≡ false
  pub query_chars : (ps : List (Text × Text)) → All IsQueryChar (py.urlencode ps)

-- The normal form of a rooted path.
pub normalize_path-IsRooted :
    (p r : Text)
    → IsRooted p
    → All IsPathChar p
    → normalize_path p ≡ ok r
    → IsRooted r × (All IsPathChar r × (normalize_path r ≡ ok r))
unfolding normalize_path
normalize_path-IsRooted [] r h k e =
    let same : [] ≡ r = ok-injective e in
    subst (λ t. IsRooted t × (All IsPathChar t × (normalize_path t ≡ ok t))) same (tt, (tt, refl))
normalize_path-IsRooted (c ∷ s) r h (k, ks) e =
    let e' : normalize_path (b'/' ∷ s) ≡ ok r = subst (λ x. normalize_path (x ∷ s) ≡ ok r) h e in
    (
      normal-IsRooted (normalize_path-IsNormalPath s r e'),
      (normalize_path-All s r e' ks, normalize_path_idem s r e'),
    )
  where
    normal-IsRooted : {t : Text} → IsNormalPath t → IsRooted t
    normal-IsRooted root = tt
    normal-IsRooted (one_slash c cs h) = refl
    normal-IsRooted (two_slashes c cs h) = refl

-- The normal form of a query.
pub normalize_query_again :
    (py : Python)
    → IsStandard py
    → (q r : Text) → normalize_query py q ≡ ok r
    → All IsQueryChar r × (normalize_query py r ≡ ok r)
unfolding normalize_query
normalize_query_again py std [] r h =
    let same : [] ≡ r = ok-injective h in
    subst (λ t. All IsQueryChar t × (normalize_query py t ≡ ok t)) same (tt, refl)
normalize_query_again py std (c ∷ q) r h =
    let ps = kept_items py (c ∷ q) in
    let (twice, _, _, _) =
      normalize_query_canonical py (c ∷ q) r (std.decoded ps) (std.escaped ps) refl h in
    (
      subst (All IsQueryChar) (normalize_query-eq-ok py (c ∷ q) r refl h) (std.query_chars ps),
      twice,
    )
