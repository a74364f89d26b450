-- ===== src/Url/Normalize.antt =====
-- normalize_url
use webintel.Prelude.{
  ℕ, Bool, true, false, not, ◌&&◌, ◌||◌, List, [], ◌∷◌, ◌++◌, ltb, leb, ◌==◌, nat_Eq, text_Eq,
  if◌then◌else◌, Text, Option, none, some, is_empty, length, any, contains, codes, is_some,
}
use webintel.Prelude.Result.{Result, ok, err, ◌>>=◌, ◌>>◌, raise_if, or_raise}
use webintel.Py.Str.{strip, is_space, ends_with, decimal}
use webintel.Py.Tables.{Python, IpAddress}
use webintel.Py.Split.{SplitResult, urlsplit, urlunsplit, hostname, port, has_userinfo}
use webintel.Url.Errors.{
  UrlError, value_error, normalization_error, unsafe_target_error, empty_or_too_long,
  has_space_or_control, needs_http_and_hostname, has_credentials, invalid_port, localhost_target,
  invalid_public_hostname,
}
use webintel.Url.Path.{normalize_path}
use webintel.Url.Query.{normalize_query}
use webintel.Url.Host.{
  canonicalize_hostname, direct_address, ensure_public_address, is_localhost, is_public_hostname,
}
pub mod Safety
pub mod Netloc
pub mod Parts
pub mod Standard
pub mod Plain
pub mod Fixed
pub mod Made
pub mod Idempotent
pub mod ReadBack

-- MAX_URL_LENGTH
abbrev pub max_url_length : ℕ
max_url_length = 4096

abbrev pub http : Text
http = codes "http"

abbrev pub https : Text
https = codes "https"

-- CONTROL_OR_SPACE
abbrev pub is_control_or_space : ℕ → Bool
is_control_or_space c = leb c 32 || c == 127

-- scheme in ALLOWED_SCHEMES
abbrev pub is_allowed_scheme : Text → Bool
is_allowed_scheme scheme = scheme == http || scheme == https

abbrev pub is_default_port : Text → Option ℕ → Bool
is_default_port scheme none = false
is_default_port scheme (some n) = (scheme == http && n == 80) || (scheme == https && n == 443)

abbrev pub display_host : Text → Text
display_host hostname = if contains hostname b':' then b'[' ∷ hostname ++ b']' ∷ [] else hostname

unfoldable pub port_suffix : Text → Option ℕ → Text
unfolding decimal
port_suffix scheme none = []
port_suffix scheme (some n) = if is_default_port scheme (some n) then [] else b':' ∷ decimal n

-- The host of a URL that has one: `not parsed.hostname` covers None and the empty text.
abbrev pub host_of : Option Text → Option Text
host_of none = none
host_of (some []) = none
host_of (some (c ∷ s)) = some (c ∷ s)

module _ (py : Python) where
  abbrev pub check_direct : Bool → Option IpAddress → Result UrlError (Unit {0})
  check_direct true (some address) = ensure_public_address py address
  check_direct _ _ = ok tt

  -- The candidate, stripped and checked.
  unfoldable pub prepare : Text → Result UrlError Text
  unfolding strip is_space
  prepare value = do
    let candidate = strip is_space (py.unescape value)
    raise_if (is_empty candidate || ltb max_url_length (length candidate))
        (normalization_error empty_or_too_long)
    raise_if (any is_control_or_space candidate) (normalization_error has_space_or_control)
    ok candidate

  -- The host name of a split URL, checked.
  unfoldable pub checked_host : Bool → Text → SplitResult → Result UrlError (Text × Option ℕ)
  checked_host reject scheme parsed = do
    raise_if (not (is_allowed_scheme scheme)) (normalization_error needs_http_and_hostname)
    raw ← or_raise (host_of (hostname py parsed)) (normalization_error needs_http_and_hostname)
    raise_if (has_userinfo parsed) (normalization_error has_credentials)
    host ← canonicalize_hostname py raw
    number ← or_raise (port parsed) (normalization_error invalid_port)
    raise_if (is_localhost host) (unsafe_target_error localhost_target)
    raise_if (not (is_some (direct_address py host)) && not (is_public_hostname host))
        (normalization_error invalid_public_hostname)
    check_direct reject (direct_address py host)
    ok (host, number)

  -- What `normalize_url` does with the resolved candidate.
  unfoldable pub canonicalize : Bool → Text → Result UrlError Text
  canonicalize reject candidate = do
    parsed ← or_raise (urlsplit py candidate) value_error
    let scheme = py.lower parsed.scheme
    (host, number) ← checked_host reject scheme parsed
    path ← normalize_path parsed.path
    query ← normalize_query py parsed.query
    ok (urlunsplit scheme (display_host host ++ port_suffix scheme number) path query)

  -- normalize_url(value, reject_non_public_ip=reject)
  unfoldable pub normalize_absolute : Bool → Text → Result UrlError Text
  normalize_absolute reject value = do candidate ← prepare value; canonicalize reject candidate

  -- urljoin(normalized_base, candidate): a base that is a directory keeps its last slash.
  unfoldable pub join_base : Text → Text → Result UrlError Text
  join_base base candidate = do
    let raw_base = strip is_space (py.unescape base)
    normalized_base ← normalize_absolute false raw_base
    raw ← or_raise (urlsplit py raw_base) value_error
    normalized ← or_raise (urlsplit py normalized_base) value_error
    or_raise
        (py.urljoin
          (if ends_with raw.path (b'/' ∷ []) && not (is_empty normalized.path)
            then normalized_base ++ b'/' ∷ []
            else normalized_base)
          candidate)
        value_error

  unfoldable pub normalize_url : Text → Option Text → Bool → Result UrlError Text
  normalize_url value none reject = normalize_absolute reject value
  normalize_url value (some base) reject = do
    candidate ← prepare value
    joined ← join_base base candidate
    canonicalize reject joined
