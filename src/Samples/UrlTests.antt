-- ===== src/Samples/UrlTests.antt =====
-- The theorems on URLs at concrete ones.
use mathlib.Core.List.{Permᴰ}
use webintel.Prelude.{
  any, contains, ◌||◌, ◌≡◌, refl, true, ◌↔◌, List, [], ◌∷◌, none, Text, codes, text_eq, All, keep,
}
use webintel.Prelude.Result.{ok}
use webintel.Py.Split.{urlsplit, hostname, port, has_userinfo, urlunsplit}
use webintel.Py.Tables.{IpAddress, address_Eq, v4}
use webintel.Url.Percent.{has_invalid_escape, normalize_percent_encoding}
use webintel.Url.Path.{normalize_path}
use webintel.Url.Query.{is_kept, normalize_query, kept_items}
use webintel.Url.Query.Laws.{IsSorted}
use webintel.Url.Query.Laws.{normalize_query-perm, normalize_query_canonical}
use webintel.Url.Normalize.{
  normalize_url, normalize_absolute, canonicalize, checked_host, prepare, port_suffix,
}
use webintel.Url.Host.{
  canonicalize_hostname, direct_address, ensure_public_address, is_localhost, is_public_hostname,
}
use webintel.Py.Str.{strip, is_space, lower_char, decimal, ascii_int}
use webintel.Url.Normalize.Safety.{IsNormalUrl, normalize_url-IsNormalUrl}
use webintel.Url.Normalize.Idempotent.{normalize_url_idem}
use webintel.Url.Normalize.ReadBack.{IsRead, normalize_url-IsRead}
use webintel.Samples.Codec.{codec_python, codec_python-IsStandard, read_items, write_items}
use webintel.Url.Scope.{is_internal_url}
use webintel.Url.Scope.Internal.{HasHost, is_internal_url_iff}
use webintel.Url.Public.{collect, Resolver, port_or_default, validate_public_url}
use webintel.Url.Public.Targets.{IsValidated, validate_public_url-IsValidated}
use webintel.Samples.{target_of}
use webintel.Url.Public.Addresses.{
  AreGlobal, IsGlobal, IsDistinct, reads_as, collect_sound, collect_complete,
}
use webintel.Samples.{sample_python, parse_items, print_items, sample_address, start_url, end_url}

normalize_query-perm_example :
    normalize_query sample_python (codes "b=2&a=1")
    ≡ normalize_query sample_python (codes "a=1&b=2")
unfolding is_kept has_invalid_escape parse_items sample_python text_eq lower_char
normalize_query-perm_example =
    normalize_query-perm sample_python (codes "b=2&a=1") (codes "a=1&b=2") refl refl refl refl
      (Permᴰ.swap refl refl)

normalize_query_canonical_example :
    (normalize_query sample_python (codes "a=1&b=2") ≡ ok (codes "a=1&b=2"))
    × IsSorted (sample_python.parse_qsl (codes "a=1&b=2"))
    × Permᴰ
        (sample_python.parse_qsl (codes "a=1&b=2"))
        (keep (is_kept sample_python) (sample_python.parse_qsl (codes "b=2&utm_x=3&a=1")))
    × All (λ p. is_kept sample_python p ≡ true) (sample_python.parse_qsl (codes "a=1&b=2"))
unfolding normalize_query kept_items is_kept has_invalid_escape parse_items print_items
    sample_python text_eq lower_char
normalize_query_canonical_example =
    normalize_query_canonical sample_python (codes "b=2&utm_x=3&a=1") (codes "a=1&b=2") refl refl
      refl refl

normalize_url-IsNormalUrl_example : IsNormalUrl sample_python true (codes "https://example.com/b")
unfolding normalize_url normalize_absolute canonicalize checked_host prepare is_space port_suffix
    decimal ascii_int urlsplit hostname port has_userinfo normalize_path normalize_percent_encoding
    normalize_query urlunsplit canonicalize_hostname direct_address ensure_public_address
    is_localhost is_public_hostname strip sample_python text_eq lower_char
normalize_url-IsNormalUrl_example =
    normalize_url-IsNormalUrl sample_python (codes "HTTPS://Example.com:443/a/../b/#top") none true
      (codes "https://example.com/b") refl

is_internal_url_iff_example :
    (is_internal_url sample_python start_url end_url ≡ ok true)
    ↔ ((host : Text) × HasHost sample_python start_url host × HasHost sample_python end_url host)
is_internal_url_iff_example = is_internal_url_iff sample_python start_url end_url

collect_sound_example :
    AreGlobal sample_python (sample_address ∷ sample_address ∷ [])
    × All (IsGlobal sample_python) (v4 1572395042 ∷ [])
    × IsDistinct (v4 1572395042 ∷ [])
unfolding collect ensure_public_address sample_python text_eq lower_char
collect_sound_example =
    collect_sound sample_python [] (sample_address ∷ sample_address ∷ []) tt tt refl

collect_complete_example :
    (found : List IpAddress) × (collect sample_python [] (sample_address ∷ []) ≡ ok found)
    × ((a : IpAddress)
        → contains found a
          ≡ (contains [] a || any (reads_as sample_python a) (sample_address ∷ [])))
unfolding sample_python text_eq lower_char
collect_complete_example =
    collect_complete sample_python [] (sample_address ∷ []) ((v4 1572395042, refl, refl), tt)

abbrev sample_resolver : Resolver
sample_resolver = λ host number. ok (sample_address ∷ sample_address ∷ [])

validate_public_url-IsValidated_example : IsValidated sample_python (target_of start_url)
unfolding validate_public_url collect port_or_default normalize_url normalize_absolute canonicalize
    checked_host prepare is_space port_suffix decimal ascii_int urlsplit hostname port has_userinfo
    normalize_path normalize_percent_encoding normalize_query urlunsplit canonicalize_hostname
    direct_address ensure_public_address is_localhost is_public_hostname strip sample_python text_eq
    lower_char
validate_public_url-IsValidated_example =
    validate_public_url-IsValidated sample_python sample_resolver start_url (target_of start_url)
      refl

normalize_url_idem_example :
    normalize_url codec_python (codes "http://example.com:81/b?&ca=caa") none true
    ≡ ok (codes "http://example.com:81/b?&ca=caa")
unfolding normalize_url normalize_absolute canonicalize checked_host prepare is_space port_suffix
    decimal ascii_int urlsplit hostname port has_userinfo normalize_path normalize_percent_encoding
    normalize_query urlunsplit canonicalize_hostname direct_address ensure_public_address
    is_localhost is_public_hostname strip text_eq lower_char codec_python read_items write_items
    kept_items is_kept has_invalid_escape
normalize_url_idem_example =
    normalize_url_idem codec_python (codes " HTTP://Example.com:81/a/../b?&ca=caa#top") none true
      (codes "http://example.com:81/b?&ca=caa") codec_python-IsStandard refl refl refl

normalize_url-IsRead_example : IsRead codec_python true (codes "http://example.com:81/b?&ca=caa")
unfolding normalize_url normalize_absolute canonicalize checked_host prepare is_space port_suffix
    decimal ascii_int urlsplit hostname port has_userinfo normalize_path normalize_percent_encoding
    normalize_query urlunsplit canonicalize_hostname direct_address ensure_public_address
    is_localhost is_public_hostname strip text_eq lower_char codec_python read_items write_items
    kept_items is_kept has_invalid_escape
normalize_url-IsRead_example =
    normalize_url-IsRead codec_python (codes " HTTP://Example.com:81/a/../b?&ca=caa#top") none true
      (codes "http://example.com:81/b?&ca=caa") codec_python-IsStandard refl refl
