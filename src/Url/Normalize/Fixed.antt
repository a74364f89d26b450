-- ===== src/Url/Normalize/Fixed.antt =====
-- The normal form of a URL is its own normal form.
use webintel.Prelude.{
  ℕ, ◌≡◌, refl, sym, subst, ap, ap₂, ◌∙◌, Bool, true, false, not, ◌&&◌, [], ◌++◌, nat_Eq, text_Eq,
  Text, Option, some, All, any, is_some, arith,
}
use webintel.Prelude.Result.{ok}
use webintel.Py.Tables.{Python}
use webintel.Py.Split.{SplitResult, urlsplit, urlunsplit, hostname, port, has_userinfo, is_unsafe}
use webintel.Py.Split.Laws.{with_slash-rooted, IsRooted, urlsplit-urlunsplit}
use webintel.Url.Path.{normalize_path}
use webintel.Url.Percent.Chars.{IsPathChar}
use webintel.Url.Query.{normalize_query}
use webintel.Url.Host.{is_public_hostname, direct_address}
use webintel.Url.Host.Names.{
  IsHostChar, is_public_hostname-All, canonicalize_hostname-public, public_ne,
}
use webintel.Url.Normalize.{
  canonicalize, checked_host, is_allowed_scheme, display_host, port_suffix, host_of,
}
use webintel.Url.Normalize.Safety.{IsCheckedHost}
use webintel.Url.Normalize.Netloc.{
  shown, suffix, IsPort, port_suffix-shown, port_suffix_again, shown-IsPort, port-netloc,
  hostname-netloc, netloc-All, netloc-delimited, netloc-balanced, netloc-userinfo, no_colon,
  any-none, contains-none,
}
use webintel.Url.Normalize.Standard.{IsQueryChar, IsStandard}
use webintel.Url.Normalize.Plain.{
  IsSafe, path-IsSafe, query-IsSafe, netloc-IsSafe, scheme-IsSafe, allowed-cases, lower-scheme,
  host-lower, check_direct-ok, host_of-some, urlunsplit-IsSafe,
}

canonicalize-by :
    (py : Python) (reject : Bool) (candidate : Text) (r : SplitResult)
    (scheme host path query : Text) (o : Option ℕ)
    → urlsplit py candidate ≡ some r
    → py.lower r.scheme ≡ scheme
    → checked_host py reject scheme r ≡ ok (host, o)
    → normalize_path r.path ≡ ok path
    → normalize_query py r.query ≡ ok query
    → canonicalize py reject candidate
      ≡ ok (urlunsplit scheme (display_host host ++ port_suffix scheme o) path query)
unfolding canonicalize
canonicalize-by py reject candidate r scheme host path query o s l c p q =
    rw (s) (rw (l) (rw (c) (rw (p, q) refl)))

public-passes : (b c : Bool) → c ≡ true → (not b && not c) ≡ false
public-passes b c h = ground (arith, h)

-- The URL of a public host name, put together of normal forms.
module _ (py : Python) (std : IsStandard py) (scheme host path query : Text) (number : Option ℕ)
    (allowed : is_allowed_scheme scheme ≡ true) (public : is_public_hostname host ≡ true)
    (in_bounds : IsPort number) (rooted : IsRooted path) (path_chars : All IsPathChar path)
    (query_chars : All IsQueryChar query) where
  o : Option ℕ
  o = shown scheme number

  plain : All IsHostChar host
  plain = is_public_hostname-All host public

  netloc : Text
  netloc = host ++ suffix o

  made_again : Text
  made_again = urlunsplit scheme netloc path query

  url-IsSafe : any is_unsafe made_again ≡ false
  unfolding made_again netloc
  url-IsSafe =
      any-none is_unsafe IsSafe (λ c h. h) made_again
        (urlunsplit-IsSafe scheme netloc path query
          (scheme-IsSafe scheme (allowed-cases scheme allowed))
          (netloc-IsSafe netloc (netloc-All host o plain))
          (rw (with_slash-rooted path rooted) (path-IsSafe path path_chars))
          (query-IsSafe query query_chars))

  split : SplitResult
  split = record { scheme = scheme; netloc = netloc; path = path; query = query; fragment = [] }

  urlsplit-again : urlsplit py made_again ≡ some split
  unfolding made_again netloc split
  urlsplit-again =
      urlsplit-urlunsplit py scheme netloc path query (netloc-delimited host o plain)
        (netloc-balanced host o plain) (std.valid_netloc netloc (netloc-All host o plain)) rooted
        (contains-none b'?' IsPathChar (λ c h. ground (arith, h.0)) path path_chars)
        (contains-none b'#' IsPathChar (λ c h. ground (arith, h.1.0)) path path_chars)
        (contains-none b'#' IsQueryChar (λ c h. ground (arith, h.0)) query query_chars)
        (allowed-cases scheme allowed) url-IsSafe

  display_host-plain : display_host host ≡ host
  display_host-plain = rw (no_colon host o plain) refl

  netloc-shown : display_host host ++ port_suffix scheme number ≡ netloc
  unfolding netloc o
  netloc-shown = ap₂ (λ a b. a ++ b) display_host-plain (port_suffix-shown scheme number)

  netloc_again : display_host host ++ port_suffix scheme o ≡ netloc
  unfolding o
  netloc_again = ap (λ t. display_host host ++ t) (port_suffix_again scheme number) ∙ netloc-shown

  split-netloc : split.netloc ≡ host ++ suffix o
  unfolding split netloc
  split-netloc = refl

  o-IsPort : IsPort o
  unfolding o
  o-IsPort = shown-IsPort scheme number in_bounds

  low : py.lower host ≡ host
  low = std.lower_fixed host (host-lower host plain)

  hostname_again : host_of (hostname py split) ≡ some host
  hostname_again =
      ap host_of (hostname-netloc host plain split o split-netloc py (public_ne host public) low)
      ∙ host_of-some host (public_ne host public)

  port_again : port split ≡ some o
  port_again = port-netloc host plain split o split-netloc o-IsPort

  userinfo_again : has_userinfo split ≡ false
  userinfo_again = netloc-userinfo host o plain split split-netloc

  checked_host_again :
      (reject : Bool)
      → IsCheckedHost py reject host
      → checked_host py reject scheme split ≡ ok (host, o)
  unfolding checked_host
  checked_host_again reject c =
      rw
        (
          allowed,
          hostname_again,
          userinfo_again,
          canonicalize_hostname-public py host public (std.idna_fixed host public) low,
          port_again,
          c.not_local,
          public-passes (is_some (direct_address py host)) (is_public_hostname host) public,
          check_direct-ok py reject (direct_address py host) c.global,
        )
        refl

  canonicalize_again :
      (reject : Bool)
      → IsCheckedHost py reject host
      → normalize_path path ≡ ok path
      → normalize_query py query ≡ ok query
      → canonicalize py reject made_again ≡ ok made_again
  unfolding split made_again
  canonicalize_again reject c p q =
      canonicalize-by py reject made_again split scheme host path query o urlsplit-again
        (lower-scheme py std scheme (allowed-cases scheme allowed)) (checked_host_again reject c) p
        q
      ∙ ap (λ n. ok (urlunsplit scheme n path query)) netloc_again

  -- The URL that was made is read as it was made.
  pub urlsplit-made :
      (url : Text)
      → url ≡ urlunsplit scheme (display_host host ++ port_suffix scheme number) path query
      → (r : SplitResult) × (urlsplit py url ≡ some r)
        × (r.scheme ≡ scheme)
        × (hostname py r ≡ some host)
        × (port r ≡ some (shown scheme number))
        × (has_userinfo r ≡ false)
        × (r.path ≡ path)
        × (r.query ≡ query)
  unfolding made_again split o
  urlsplit-made url made =
      let same : url ≡ made_again = made ∙ ap (λ n. urlunsplit scheme n path query) netloc-shown in
      (
        split,
        ap (urlsplit py) same ∙ urlsplit-again,
        refl,
        hostname-netloc host plain split o split-netloc py (public_ne host public) low,
        port_again,
        userinfo_again,
        refl,
        refl,
      )

  -- The URL that was made is the result for itself.
  pub canonicalize-made :
      (reject : Bool) (url : Text)
      → url ≡ urlunsplit scheme (display_host host ++ port_suffix scheme number) path query
      → IsCheckedHost py reject host
      → normalize_path path ≡ ok path
      → normalize_query py query ≡ ok query
      → canonicalize py reject url ≡ ok url
  unfolding made_again
  canonicalize-made reject url made c p q =
      let same : made_again ≡ url =
        sym (made ∙ ap (λ n. urlunsplit scheme n path query) netloc-shown) in
      subst (λ t. canonicalize py reject t ≡ ok t) same (canonicalize_again reject c p q)
