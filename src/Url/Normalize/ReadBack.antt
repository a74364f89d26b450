-- ===== src/Url/Normalize/ReadBack.antt =====
-- What urlsplit reads of a URL that normalize_url returned.
use webintel.Prelude.{ℕ, ◌≡◌, sym, ap, ◌∙◌, Bool, true, false, nat_Eq, Text, Option, some, contains}
use webintel.Prelude.Result.{ok}
use webintel.Py.Tables.{Python}
use webintel.Py.Split.{SplitResult, urlsplit, hostname, port, has_userinfo}
use webintel.Url.Path.{normalize_path}
use webintel.Url.Query.{normalize_query}
use webintel.Url.Host.{is_public_hostname}
use webintel.Url.Normalize.{normalize_url, is_allowed_scheme}
use webintel.Url.Normalize.Safety.{IsCheckedHost}
use webintel.Url.Normalize.Standard.{IsStandard}
use webintel.Url.Normalize.Made.{normalize_url-AreParts}
use webintel.Url.Normalize.Fixed.{urlsplit-made}
use webintel.Url.Normalize.Netloc.{shown}

-- The URL is read as an allowed scheme, a host name that passed the checks, and the port that is
-- not the scheme's own, without credentials.
pub record IsRead (py : Python) (reject : Bool) (url : Text) : Type 0 where
  pub parsed : SplitResult
  pub host : Text
  pub number : Option ℕ
  pub split : urlsplit py url ≡ some parsed
  pub allowed : is_allowed_scheme parsed.scheme ≡ true
  pub named : hostname py parsed ≡ some host
  pub public : is_public_hostname host ≡ true
  pub checked : IsCheckedHost py reject host
  pub numbered : port parsed ≡ some (shown parsed.scheme number)
  pub anonymous : has_userinfo parsed ≡ false
  pub of_path : normalize_path parsed.path ≡ ok parsed.path
  pub of_query : normalize_query py parsed.query ≡ ok parsed.query

-- Whatever the value and the base: a URL that `normalize_url` returned, without a bracket in it, is
-- read by `urlsplit`, and what is read is what was checked: an allowed scheme, a public host name
-- that is not the local host (and, if non-public addresses are rejected, no address but a global
-- one), a port that is not the scheme's own, no credentials, and a normal path and query.
pub normalize_url-IsRead :
    (py : Python) (value : Text) (base : Option Text) (reject : Bool) (url : Text)
    → IsStandard py
    → normalize_url py value base reject ≡ ok url
    → contains url b'[' ≡ false
    → IsRead py reject url
normalize_url-IsRead py value base reject url std h bracketless =
    let p = normalize_url-AreParts py std value base reject url h bracketless in
    let (r, split, e, host, port, anonymous, path, query) =
      urlsplit-made py std p.scheme p.host p.path p.query p.number p.allowed p.named p.in_bounds
        p.rooted p.path_chars p.query_chars url p.made in
    record {
      parsed = r;
      host = p.host;
      number = p.number;
      split = split;
      allowed = ap is_allowed_scheme e ∙ p.allowed;
      named = host;
      public = p.named;
      checked = p.checked;
      numbered = port ∙ ap (λ s. some (shown s p.number)) (sym e);
      anonymous = anonymous;
      of_path = rw path p.path_again;
      of_query = rw query p.query_again;
    }
