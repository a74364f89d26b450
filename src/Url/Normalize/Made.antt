-- ===== src/Url/Normalize/Made.antt =====
-- The parts that a returned URL, without a bracket in it, is put together of.
use webintel.Prelude.{
  ℕ, ◌≡◌, sym, ap, ◌∙◌, inl, inr, Bool, true, false, not, ◌&&◌, [], ◌∷◌, ◌++◌, nat_Eq, Text, Option,
  none, some, contains, Bool-cases, is_some, is_empty, arith, if◌then◌else◌,
}
use webintel.Prelude.Result.{ok, raise_if, or_raise, >>=-eq-ok, or_raise-eq-ok, ok-injective}
use webintel.Py.Tables.{Python}
use webintel.Py.Split.{
  SplitResult, urlsplit, urlunsplit, with_slash, after_mark, hostname, port, has_userinfo,
}
use webintel.Py.Split.Laws.{contains-append}
use webintel.Url.Path.{normalize_path}
use webintel.Url.Query.{normalize_query}
use webintel.Url.Host.{is_public_hostname, direct_address, is_localhost, canonicalize_hostname}
use webintel.Url.Normalize.{
  normalize_url, normalize_absolute, canonicalize, checked_host, check_direct, prepare,
  is_allowed_scheme, display_host, port_suffix, join_base, host_of,
}
use webintel.Url.Normalize.Safety.{IsCheckedHost, checked_host-IsCheckedHost}
use webintel.Url.Normalize.Netloc.{port-IsPort}
use webintel.Url.Normalize.Parts.{urlsplit-IsRooted, hostname_ne}
use webintel.Url.Normalize.Standard.{IsStandard, normalize_path-IsRooted, normalize_query_again}
use webintel.Url.Normalize.Netloc.{IsPort}
use webintel.Url.Normalize.Standard.{IsQueryChar}
use webintel.Url.Percent.Chars.{IsPathChar}
use webintel.Py.Split.Laws.{IsRooted}
use webintel.Prelude.{All}

-- The URL is put together of an allowed scheme, a public host name that passed the checks, a port,
-- and a path and a query in normal form.
pub record AreParts (py : Python) (reject : Bool) (url : Text) : Type 0 where
  pub scheme : Text
  pub host : Text
  pub number : Option ℕ
  pub path : Text
  pub query : Text
  pub made : url ≡ urlunsplit scheme (display_host host ++ port_suffix scheme number) path query
  pub allowed : is_allowed_scheme scheme ≡ true
  pub checked : IsCheckedHost py reject host
  pub named : is_public_hostname host ≡ true
  pub in_bounds : IsPort number
  pub rooted : IsRooted path
  pub path_chars : All IsPathChar path
  pub path_again : normalize_path path ≡ ok path
  pub query_chars : All IsQueryChar query
  pub query_again : normalize_query py query ≡ ok query

-- A character that a URL lacks is not in its network location.
netloc-lacks :
    (c : ℕ) (scheme netloc path query : Text)
    → contains (urlunsplit scheme netloc path query) c ≡ false
    → contains netloc c ≡ false
unfolding urlunsplit
netloc-lacks c scheme netloc path query h =
    let start = if is_empty scheme then [] else scheme ++ b':' ∷ [] in
    let a =
      contains-append (start ++ b'/' ∷ b'/' ∷ netloc ++ with_slash path) (after_mark b'?' query)
        c in
    let b = contains-append (start ++ b'/' ∷ b'/' ∷ netloc) (with_slash path) c in
    let d = contains-append start (b'/' ∷ b'/' ∷ netloc) c in ground (arith, h, a, b, d)

-- An address with colons is shown in brackets.
display_host-lacks :
    (host rest : Text)
    → contains (display_host host ++ rest) b'[' ≡ false
    → contains host b':' ≡ false
display_host-lacks host rest h = elim (Bool-cases (contains host b':')) [
  | inl e ↦ absurd (ground (arith, rw e at h))
  | inr e ↦ e
]

module _ (py : Python) (std : IsStandard py) where
  named-public :
      (reject : Bool) (host : Text)
      → IsCheckedHost py reject host
      → contains host b':' ≡ false
      → is_public_hostname host ≡ true
  unfolding direct_address
  named-public reject host c h = elim c.named [ inl a ↦ std.dotted host a h | inr p ↦ p ]

  -- What the checks read of the split URL.
  checked_host-read :
      (reject : Bool) (scheme : Text) (parsed : SplitResult) {host : Text} {number : Option ℕ}
      → checked_host py reject scheme parsed ≡ ok (host, number)
      → (is_empty parsed.netloc ≡ false) × (port parsed ≡ some number)
  unfolding checked_host
  checked_host-read reject scheme parsed {host} {number} h =
      let (u₁, e₁, h₁) = >>=-eq-ok (raise_if (not (is_allowed_scheme scheme)) _) _ h in
      let (raw, e₂, h₂) = >>=-eq-ok (or_raise (host_of (hostname py parsed)) _) _ h₁ in
      let (u₃, e₃, h₃) = >>=-eq-ok (raise_if (has_userinfo parsed) _) _ h₂ in
      let (found, e₄, h₄) = >>=-eq-ok (canonicalize_hostname py raw) _ h₃ in
      let (n, e₅, h₅) = >>=-eq-ok (or_raise (port parsed) _) _ h₄ in
      let (u₆, e₆, h₆) = >>=-eq-ok (raise_if (is_localhost found) _) _ h₅ in
      let (u₇, e₇, h₇) =
        >>=-eq-ok
          (raise_if (not (is_some (direct_address py found)) && not (is_public_hostname found)) _) _
          h₆ in
      let (u₈, e₈, h₈) = >>=-eq-ok (check_direct py reject (direct_address py found)) _ h₇ in
      let same : n ≡ number = ap (λ (p : Text × Option ℕ). p.1) (ok-injective h₈) in
      (
        hostname_ne py parsed raw (or_raise-eq-ok (host_of (hostname py parsed)) _ e₂),
        or_raise-eq-ok (port parsed) _ e₅ ∙ ap some same,
      )

  made-AreParts :
      (reject : Bool) (candidate url : Text) (parsed : SplitResult) (scheme host path query : Text)
      (number : Option ℕ)
      → urlsplit py candidate ≡ some parsed
      → checked_host py reject scheme parsed ≡ ok (host, number)
      → normalize_path parsed.path ≡ ok path
      → normalize_query py parsed.query ≡ ok query
      → url ≡ urlunsplit scheme (display_host host ++ port_suffix scheme number) path query
      → contains url b'[' ≡ false
      → AreParts py reject url
  made-AreParts reject candidate url parsed scheme host path query number e₁ e₂ e₃ e₄ made
        bracketless =
      let (allowed, checked) = checked_host-IsCheckedHost py reject scheme parsed e₂ in
      let (netloc, read) = checked_host-read reject scheme parsed e₂ in
      let (rooted, chars) = urlsplit-IsRooted py candidate parsed e₁ netloc in
      let (path_rooted, (path_chars, path_again)) =
        normalize_path-IsRooted parsed.path path rooted chars e₃ in
      let (query_chars, query_again) = normalize_query_again py std parsed.query query e₄ in
      let lacks =
        netloc-lacks b'[' scheme (display_host host ++ port_suffix scheme number) path query
          (sym (ap (λ t. contains t b'[') made) ∙ bracketless) in
      record {
        scheme = scheme;
        host = host;
        number = number;
        path = path;
        query = query;
        made = made;
        allowed = allowed;
        checked = checked;
        named =
            named-public reject host checked
              (display_host-lacks host (port_suffix scheme number) lacks);
        in_bounds = port-IsPort parsed number read;
        rooted = path_rooted;
        path_chars = path_chars;
        path_again = path_again;
        query_chars = query_chars;
        query_again = query_again;
      }

  pub canonicalize-AreParts :
      (reject : Bool) (candidate url : Text)
      → canonicalize py reject candidate ≡ ok url
      → contains url b'[' ≡ false
      → AreParts py reject url
  unfolding canonicalize
  canonicalize-AreParts reject candidate url h bracketless =
      let (parsed, e₁, h₁) = >>=-eq-ok (or_raise (urlsplit py candidate) _) _ h in
      let scheme = py.lower parsed.scheme in
      let (pair, e₂, h₂) = >>=-eq-ok (checked_host py reject scheme parsed) _ h₁ in
      let (path, e₃, h₃) = >>=-eq-ok (normalize_path parsed.path) _ h₂ in
      let (query, e₄, h₄) = >>=-eq-ok (normalize_query py parsed.query) _ h₃ in
      made-AreParts reject candidate url parsed scheme pair.0 path query pair.1
        (or_raise-eq-ok (urlsplit py candidate) _ e₁) e₂ e₃ e₄ (sym (ok-injective h₄)) bracketless

  pub normalize_url-AreParts :
      (value : Text) (base : Option Text) (reject : Bool) (url : Text)
      → normalize_url py value base reject ≡ ok url
      → contains url b'[' ≡ false
      → AreParts py reject url
  unfolding normalize_url normalize_absolute
  normalize_url-AreParts value none reject url h bracketless =
      let (candidate, e, h₁) = >>=-eq-ok (prepare py value) _ h in
      canonicalize-AreParts reject candidate url h₁ bracketless
  normalize_url-AreParts value (some base) reject url h bracketless =
      let (candidate, e, h₁) = >>=-eq-ok (prepare py value) _ h in
      let (joined, e₂, h₂) = >>=-eq-ok (join_base py base candidate) _ h₁ in
      canonicalize-AreParts reject joined url h₂ bracketless
