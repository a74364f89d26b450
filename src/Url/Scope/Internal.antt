-- ===== src/Url/Scope/Internal.antt =====
-- Which URLs are internal to a crawl.
use mathlib.Core.Bool.{false≢true}
use webintel.Prelude.{
  ◌≡◌, refl, ◌↔◌, Bool, true, false, Option, none, some, Text, arith, text_Eq, text_eq_iff,
}
use webintel.Prelude.Result.{Result, ok, err, ◌>>=◌}
use webintel.Py.Tables.{Python}
use webintel.Url.Errors.{UrlError}
use webintel.Url.Normalize.{normalize_url}
use webintel.Url.Scope.{
  except, CrawlScope, option_is, url_hostname, from_url, in_scope, after_try, contains,
  is_internal_url,
}

module _ (py : Python) where
  -- The URL has a normal form, and that has this host name.
  abbrev pub HasHost : Text → Text → Type 0
  HasHost url host = (do n ← normalize_url py url none false; url_hostname py n) ≡ ok (some host)

  from_url_iff :
      (url host : Text) → (from_url py url ≡ ok (record { hostname = host })) ↔ HasHost url host
  unfolding from_url
  from_url_iff url host = ground (arith)

  option_is_iff : (o : Option Text) (t : Text) → (option_is o t ≡ true) ↔ (o ≡ some t)
  option_is_iff none t = ground arith
  option_is_iff (some s) t = ground (arith, text_eq_iff s t)

  in_scope_iff :
      (scope : CrawlScope) (m : Result UrlError (Option Text))
      → ((do found ← m; ok (option_is found scope.hostname)) ≡ ok true)
        ↔ (m ≡ ok (some scope.hostname))
  in_scope_iff scope (err e) = ground arith
  in_scope_iff scope (ok o) = ground (arith, option_is_iff o scope.hostname)

  after_try_iff :
      (scope : CrawlScope) (m : Result UrlError Text)
      → (after_try py scope m ≡ ok true)
        ↔ ((do n ← m; url_hostname py n) ≡ ok (some scope.hostname))
  unfolding after_try in_scope
  after_try_iff scope (ok n) = in_scope_iff scope (url_hostname py n)
  after_try_iff scope (err e) = ground arith

  pub contains_iff :
      (scope : CrawlScope) (url : Text)
      → (contains py scope url ≡ ok true) ↔ HasHost url scope.hostname
  unfolding contains
  contains_iff scope url = after_try_iff scope (normalize_url py url none false)

  except-eq-true : (m : Result UrlError Bool) → except m false ≡ ok true → m ≡ ok true
  except-eq-true (ok b) h = h
  except-eq-true (err e) h = ground (arith, h)

  internal_iff :
      (m : Result UrlError CrawlScope) (url : Text)
      → (except (do scope ← m; contains py scope url) false ≡ ok true)
        ↔ ((scope : CrawlScope) × (m ≡ ok scope) × (contains py scope url ≡ ok true))
  internal_iff (ok scope) url =
      (λ h. (scope, refl, except-eq-true (contains py scope url) h), λ h. ground (arith, h.1, h.2))
  internal_iff (err e) url =
      (λ h. absurd (false≢true (ground (arith, h))), λ h. absurd (false≢true (ground (arith, h.1))))

-- A URL is internal to a crawl exactly when its normal form and that of the crawl's root both have
-- a host name, and it is the same one.
pub is_internal_url_iff :
    (py : Python) (url root_url : Text)
    → (is_internal_url py url root_url ≡ ok true)
      ↔ ((host : Text) × HasHost py url host × HasHost py root_url host)
unfolding is_internal_url
is_internal_url_iff py url root_url = (
  λ h.
      let (scope, made, inside) = (internal_iff py (from_url py root_url) url).0 h in
      (
        scope.hostname,
        (contains_iff py scope url).0 inside,
        (from_url_iff py root_url scope.hostname).0 made,
      ),
  λ h. (internal_iff py (from_url py root_url) url).1 (
    record { hostname = h.0 },
    (from_url_iff py root_url h.0).1 h.2,
    (contains_iff py (record { hostname = h.0 }) url).1 h.1,
  ),
)
