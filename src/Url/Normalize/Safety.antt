-- ===== src/Url/Normalize/Safety.antt =====
-- What is known of every URL that `normalize_url` returns.
use mathlib.Core.Bool.{false≢true}
use webintel.Prelude.{
  ℕ, ◌≡◌, refl, ap, sym, subst, ◌⊎◌, Bool, true, false, not, ◌&&◌, ◌++◌, Option, none, some, Text,
  arith, is_some,
}
use webintel.Prelude.Result.{ok, or_raise, raise_if, >>=-eq-ok, raise_if-eq-ok, ok-injective}
use webintel.Py.Tables.{Python, IpAddress}
use webintel.Py.Split.{SplitResult, urlsplit, urlunsplit, hostname, port, has_userinfo}
use webintel.Url.Path.{normalize_path}
use webintel.Url.Query.{normalize_query}
use webintel.Url.Host.{
  canonicalize_hostname, direct_address, ensure_public_address, is_localhost, is_public_hostname,
}
use webintel.Url.Normalize.{
  is_allowed_scheme, display_host, port_suffix, check_direct, prepare, checked_host, canonicalize,
  normalize_absolute, join_base, normalize_url, host_of,
}

-- The host passed the checks: it is not the local host, it is an address or a public name, and, if
-- non-public addresses are rejected, then an address is a global one.
pub record IsCheckedHost (py : Python) (reject : Bool) (host : Text) : Type 0 where
  pub not_local : is_localhost host ≡ false
  pub named : (is_some (direct_address py host) ≡ true) ⊎ (is_public_hostname host ≡ true)
  pub global :
      (a : IpAddress) → reject ≡ true → direct_address py host ≡ some a → py.is_global a ≡ true

-- The URL is put together of an allowed scheme, a checked host, and normal forms.
pub record IsNormalUrl (py : Python) (reject : Bool) (url : Text) : Type 0 where
  pub scheme : Text
  pub host : Text
  pub number : Option ℕ
  pub raw_path : Text
  pub raw_query : Text
  pub path : Text
  pub query : Text
  pub made : url ≡ urlunsplit scheme (display_host host ++ port_suffix scheme number) path query
  pub allowed : is_allowed_scheme scheme ≡ true
  pub checked : IsCheckedHost py reject host
  pub of_path : normalize_path raw_path ≡ ok path
  pub of_query : normalize_query py raw_query ≡ ok query

module _ (py : Python) where
  ensure_public_address-global :
      (a : IpAddress) {u : Unit {0}} → ensure_public_address py a ≡ ok u → py.is_global a ≡ true
  unfolding ensure_public_address
  ensure_public_address-global a h = ground (arith, raise_if-eq-ok (not (py.is_global a)) _ h)

  check_direct-global :
      (host : Text) (reject : Bool) (o : Option IpAddress) {u : Unit {0}}
      → check_direct py reject o ≡ ok u
      → (a : IpAddress) → reject ≡ true
      → o ≡ some a
      → py.is_global a ≡ true
  check_direct-global host true (some b) h a r e =
      let same : b ≡ a = cc in
      subst (λ c. py.is_global c ≡ true) same (ensure_public_address-global b h)
  check_direct-global host true none h a r e = absurd (ground (arith, e))
  check_direct-global host false o h a r e = absurd (false≢true r)

  not-true : (b : Bool) → not b ≡ false → b ≡ true
  not-true true h = refl
  not-true false h = cc

  either-true : (a b : Bool) → (not a && not b) ≡ false → (a ≡ true) ⊎ (b ≡ true)
  either-true a b h = ground arith

  pub checked_host-IsCheckedHost :
      (reject : Bool) (scheme : Text) (parsed : SplitResult) {host : Text} {number : Option ℕ}
      → checked_host py reject scheme parsed ≡ ok (host, number)
      → (is_allowed_scheme scheme ≡ true) × IsCheckedHost py reject host
  unfolding checked_host
  checked_host-IsCheckedHost reject scheme parsed {host} {number} h =
      let (u₁, allowed, h₁) = >>=-eq-ok (raise_if (not (is_allowed_scheme scheme)) _) _ h in
      let (raw, e₂, h₂) = >>=-eq-ok (or_raise (host_of (hostname py parsed)) _) _ h₁ in
      let (u₃, e₃, h₃) = >>=-eq-ok (raise_if (has_userinfo parsed) _) _ h₂ in
      let (found, e₄, h₄) = >>=-eq-ok (canonicalize_hostname py raw) _ h₃ in
      let (n, e₅, h₅) = >>=-eq-ok (or_raise (port parsed) _) _ h₄ in
      let (u₆, local, h₆) = >>=-eq-ok (raise_if (is_localhost found) _) _ h₅ in
      let (u₇, named, h₇) =
        >>=-eq-ok
          (raise_if (not (is_some (direct_address py found)) && not (is_public_hostname found)) _) _
          h₆ in
      let (u₈, direct, h₈) = >>=-eq-ok (check_direct py reject (direct_address py found)) _ h₇ in
      let same : found ≡ host = ap (λ (p : Text × Option ℕ). p.0) (ok-injective h₈) in
      (
        not-true (is_allowed_scheme scheme)
            (raise_if-eq-ok (not (is_allowed_scheme scheme)) _ allowed),
        subst (IsCheckedHost py reject) same (record {
          not_local = raise_if-eq-ok (is_localhost found) _ local;
          named = either-true (is_some (direct_address py found)) (is_public_hostname found) (
              raise_if-eq-ok
                (not (is_some (direct_address py found)) && not (is_public_hostname found)) _
                named);
          global = check_direct-global found reject (direct_address py found) direct;
        }),
      )

  pub canonicalize-IsNormalUrl :
      (reject : Bool) (candidate : Text) {url : Text}
      → canonicalize py reject candidate ≡ ok url
      → IsNormalUrl py reject url
  unfolding canonicalize
  canonicalize-IsNormalUrl reject candidate {url} h =
      let (parsed, e₁, h₁) = >>=-eq-ok (or_raise (urlsplit py candidate) _) _ h in
      let (pair, e₂, h₂) =
        >>=-eq-ok (checked_host py reject (py.lower parsed.scheme) parsed) _ h₁ in
      let (path, e₃, h₃) = >>=-eq-ok (normalize_path parsed.path) _ h₂ in
      let (query, e₄, h₄) = >>=-eq-ok (normalize_query py parsed.query) _ h₃ in
      let (allowed, checked) =
        checked_host-IsCheckedHost reject (py.lower parsed.scheme) parsed {host = pair.0}
          {number = pair.1} e₂ in
      record {
        scheme = py.lower parsed.scheme;
        host = pair.0;
        number = pair.1;
        raw_path = parsed.path;
        raw_query = parsed.query;
        path = path;
        query = query;
        made = sym (ok-injective h₄);
        allowed = allowed;
        checked = checked;
        of_path = e₃;
        of_query = e₄;
      }

-- Whatever the value and the base, a URL that `normalize_url` returns consists of the scheme http
-- or https, a host that is not the local host and is an address or a public name (a global address,
-- if non-public ones are rejected), a port unless it is the scheme's own, and a path and a query
-- that are results of `_normalize_path` and `_normalize_query`.
pub normalize_url-IsNormalUrl :
    (py : Python) (value : Text) (base : Option Text) (reject : Bool) (url : Text)
    → normalize_url py value base reject ≡ ok url
    → IsNormalUrl py reject url
unfolding normalize_url normalize_absolute
normalize_url-IsNormalUrl py value none reject url h =
    let (candidate, e, h₁) = >>=-eq-ok (prepare py value) _ h in
    canonicalize-IsNormalUrl py reject candidate h₁
normalize_url-IsNormalUrl py value (some base) reject url h =
    let (candidate, e, h₁) = >>=-eq-ok (prepare py value) _ h in
    let (joined, e₂, h₂) = >>=-eq-ok (join_base py base candidate) _ h₁ in
    canonicalize-IsNormalUrl py reject joined h₂
