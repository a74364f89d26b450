-- ===== src/Url/Errors.antt =====
-- The exceptions of app/services/crawler/url_normalizer.py.
use webintel.Prelude.{Bool, true, false, Text}
use webintel.Py.Tables.{IpAddress}

-- What the exception says.
pub data Message : Type 0 where
  empty_or_too_long has_space_or_control needs_http_and_hostname has_credentials : Message
  invalid_hostname no_hostname invalid_port localhost_target invalid_public_hostname : Message
  invalid_percent_escape : Message
  non_public_address : IpAddress → Message
  could_not_resolve no_address : Text → Message
  invalid_address : Text → Message

-- The classes: `UnsafeTargetError` and `HostResolutionError` are subclasses of
-- `UrlNormalizationError`, and that is a subclass of `ValueError`.
pub data UrlError : Type 0 where
  normalization_error unsafe_target_error host_resolution_error : Message → UrlError
  value_error : UrlError

-- What `except UrlNormalizationError` catches.
abbrev pub is_normalization_error : UrlError → Bool
is_normalization_error value_error = false
is_normalization_error _ = true
