-- ===== src/Py/Tables.antt =====
-- The functions of the Python standard library that run on tables of their own: Unicode case,
-- HTML entities, IDNA, percent-decoded queries, IP addresses. They are a parameter of the model.
use webintel.Prelude.{
  ℕ, ℤ, Bool, true, false, ◌&&◌, List, Option, ◌≡◌, ◌↔◌, arith, Text, Eq, ◌==◌, text_Eq, nat_eq,
  text_eq_iff,
}

-- The values of `ipaddress.IPv4Address | ipaddress.IPv6Address`: the number, and the scope of an
-- IPv6 address (empty for None).
pub data IpAddress : Type 0 where
  v4 : ℕ → IpAddress
  v6 : ℕ → Text → IpAddress

abbrev pub address_eq : IpAddress → IpAddress → Bool
address_eq (v4 a) (v4 b) = nat_eq a b
address_eq (v6 a s) (v6 b t) = nat_eq a b && s == t
address_eq _ _ = false

pub address_eq_iff : (a b : IpAddress) → (address_eq a b ≡ true) ↔ (a ≡ b)
address_eq_iff (v4 a) (v4 b) = ground arith
address_eq_iff (v4 a) (v6 b t) = ground arith
address_eq_iff (v6 a s) (v4 b) = ground arith
address_eq_iff (v6 a s) (v6 b t) = ground (arith, text_eq_iff s t)

instance abbrev pub address_Eq : Eq IpAddress
address_Eq = record { equal = address_eq; equal_iff = address_eq_iff }

pub record Python : Type 0 where
  -- html.unescape
  pub unescape : Text → Text
  -- str.lower
  pub lower : Text → Text
  -- int; `none` is ValueError
  pub int : Text → Option ℤ
  -- s.encode("idna").decode("ascii"); `none` is UnicodeError
  pub idna : Text → Option Text
  -- what `urlsplit` checks of a network location besides the balance of its brackets
  pub is_valid_netloc : Text → Bool
  -- urllib.parse.urljoin; `none` is ValueError
  pub urljoin : Text → Text → Option Text
  -- urllib.parse.parse_qsl(query, keep_blank_values=True) and urlencode(parameters, doseq=True)
  pub parse_qsl : Text → List (Text × Text)
  pub urlencode : List (Text × Text) → Text
  -- urllib.parse.urldefrag(url)[0]; `none` is ValueError
  pub urldefrag : Text → Option Text
  -- urllib.parse.unquote
  pub unquote : Text → Text
  -- ipaddress.ip_address; `none` is ValueError
  pub ip_address : Text → Option IpAddress
  -- str(address) and address.is_global
  pub str_address : IpAddress → Text
  pub is_global : IpAddress → Bool
