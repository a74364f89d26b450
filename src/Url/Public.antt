-- ===== src/Url/Public.antt =====
-- validate_public_url and the resolver that it uses by default
use webintel.Prelude.{
  ℕ, Bool, true, false, not, List, [], ◌∷◌, ◌++◌, Option, none, some, Text, ◌==◌, nat_Eq, text_Eq,
  if◌then◌else◌, contains, is_empty,
}
use webintel.Prelude.Result.{Result, ok, err, ◌>>=◌, ◌>>◌, or_raise, raise_if}
use webintel.Py.Tables.{Python, IpAddress, address_Eq}
use webintel.Py.Split.{SplitResult, urlsplit, hostname, port}
use webintel.Url.Errors.{
  UrlError, value_error, normalization_error, host_resolution_error, no_hostname, could_not_resolve,
  invalid_address, no_address,
}
use webintel.Url.Host.{direct_address, ensure_public_address}
use webintel.Url.Normalize.{normalize_url, https}
pub mod Addresses
pub mod Targets

pub record ResolvedPublicTarget : Type 0 where
  pub url : Text
  pub addresses : List IpAddress

abbrev pub Resolver : Type 0
Resolver = Text → ℕ → Result UrlError (List Text)

-- _system_resolver, over `socket.getaddrinfo`: the addresses of its records, or `none` for gaierror
unfoldable pub system_resolver : (Text → ℕ → Option (List Text)) → Resolver
system_resolver getaddrinfo host number =
    or_raise (getaddrinfo host number) (host_resolution_error (could_not_resolve host))

-- `parsed.port or (443 if parsed.scheme == "https" else 80)`: the port 0 counts as none.
unfoldable pub port_or_default : Text → Option ℕ → ℕ
port_or_default scheme none = if scheme == https then 443 else 80
port_or_default scheme (some n) = if n == 0 then (if scheme == https then 443 else 80) else n

abbrev pub add_new : List IpAddress → IpAddress → List IpAddress
add_new addresses a = if contains addresses a then addresses else addresses ++ a ∷ []

module _ (py : Python) where
  -- The loop over the resolver's values.
  unfoldable pub collect : List IpAddress → List Text → Result UrlError (List IpAddress)
  collect addresses [] = ok addresses
  collect addresses (value ∷ values) = do
    address ← or_raise (py.ip_address value) (host_resolution_error (invalid_address value))
    ensure_public_address py address
    collect (add_new addresses address) values

  abbrev checked_split : Text → Result UrlError (SplitResult × Text)
  checked_split url = do
    parsed ← or_raise (urlsplit py url) value_error
    host ← or_raise (hostname py parsed) (normalization_error no_hostname)
    ok (parsed, host)

  resolve_host : Resolver → Text → SplitResult → Text → Result UrlError ResolvedPublicTarget
  resolve_host resolver url parsed host = do
    number ← or_raise (port parsed) value_error
    values ← resolver host (port_or_default parsed.scheme number)
    addresses ← collect [] values
    raise_if (is_empty addresses) (host_resolution_error (no_address host))
    ok (record { url = url; addresses = addresses })

  abbrev by_address :
      Resolver → Text → SplitResult → Text → Option IpAddress → Result UrlError ResolvedPublicTarget
  by_address resolver url parsed host (some a) = ok (record { url = url; addresses = a ∷ [] })
  by_address resolver url parsed host none = resolve_host resolver url parsed host

  unfoldable pub validate_public_url : Resolver → Text → Result UrlError ResolvedPublicTarget
  unfolding resolve_host
  validate_public_url resolver url = do
    normalized ← normalize_url py url none true
    (parsed, host) ← checked_split normalized
    by_address resolver normalized parsed host (direct_address py host)
