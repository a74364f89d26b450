-- ===== src/Url/Host.antt =====
-- _canonicalize_hostname, _direct_address, and the rule for public host names.
use webintel.Prelude.{
  ℕ, Bool, false, not, ◌&&◌, ◌||◌, [], ◌∷◌, leb, ◌==◌, nat_Eq, text_Eq, Text, Option, none, some,
  is_empty, length, last?, all, codes,
}
use webintel.Prelude.Result.{Result, ok, ◌>>=◌, ◌>>◌, raise_if, or_raise}
use webintel.Py.Str.{rstrip, split, ends_with, is_digit, is_lower}
use webintel.Py.Tables.{Python, IpAddress}
use webintel.Url.Errors.{
  UrlError, normalization_error, unsafe_target_error, invalid_hostname, no_hostname,
  non_public_address,
}
pub mod Names

abbrev pub is_label_end : ℕ → Bool
is_label_end c = is_digit c || is_lower c

abbrev pub is_label_char : ℕ → Bool
is_label_char c = is_label_end c || c == b'-'

abbrev pub ends_label : Option ℕ → Bool
ends_label none = false
ends_label (some c) = is_label_end c

-- DNS_LABEL.fullmatch(label)
unfoldable pub is_dns_label : Text → Bool
is_dns_label [] = false
is_dns_label (c ∷ s) =
    is_label_end c && all is_label_char s && ends_label (last? (c ∷ s)) && leb (length s) 62

module _ (py : Python) where
  unfoldable pub canonicalize_hostname : Text → Result UrlError Text
  unfolding rstrip
  canonicalize_hostname hostname = do
    encoded ←
        or_raise (py.idna (rstrip (λ c. c == b'.') hostname)) (normalization_error invalid_hostname)
    raise_if (is_empty (py.lower encoded)) (normalization_error no_hostname)
    ok (py.lower encoded)

  unfoldable pub direct_address : Text → Option IpAddress
  direct_address hostname = py.ip_address hostname

  unfoldable pub ensure_public_address : IpAddress → Result UrlError (Unit {0})
  ensure_public_address address =
      raise_if (not (py.is_global address)) (unsafe_target_error (non_public_address address))

unfoldable pub is_localhost : Text → Bool
unfolding ends_with
is_localhost hostname = hostname == codes "localhost" || ends_with hostname (codes ".localhost")

-- The test on the name of a host that is no address.
unfoldable pub is_public_hostname : Text → Bool
unfolding split is_dns_label
is_public_hostname hostname =
    let labels = split b'.' hostname in
    leb (length hostname) 253 && leb 2 (length labels) && all is_dns_label labels
