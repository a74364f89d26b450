-- ===== src/Jobs/Intake.antt =====
-- app/services/url_intake.py
use webintel.Prelude.{true, [], none, Text}
use webintel.Prelude.Result.{Result, ok, err, ◌>>=◌, or_raise}
use webintel.Py.Tables.{Python}
use webintel.Py.Split.{urlsplit, hostname, urlunsplit}
use webintel.Url.Errors.{
  UrlError, normalization_error, unsafe_target_error, host_resolution_error, value_error,
}
use webintel.Jobs.Errors.{
  ErrorMessage, literal, of_url, RouteError, app_error, uncaught_value_error, new_app_error,
}
use webintel.Url.Normalize.{normalize_url}

pub record NormalizedTarget : Type 0 where
  pub domain : Text
  pub root_url : Text
  pub start_url : Text

-- _validation_error
unfoldable pub validation_error : ErrorMessage → RouteError
validation_error message = app_error (new_app_error "VALIDATION_ERROR" message 422 none)

-- `except UrlNormalizationError as exc: raise _validation_error(str(exc))`
unfoldable pub translate {ℓ} : {A : Type ℓ} → Result UrlError A → Result RouteError A
unfolding validation_error
translate (ok a) = ok a
translate (err (normalization_error m)) = err (validation_error (of_url m))
translate (err (unsafe_target_error m)) = err (validation_error (of_url m))
translate (err (host_resolution_error m)) = err (validation_error (of_url m))
translate (err value_error) = err uncaught_value_error

unfoldable pub normalize_crawl_target : Python → Text → Result RouteError NormalizedTarget
unfolding translate validation_error
normalize_crawl_target py raw_url = do
  start_url ← translate (normalize_url py raw_url none true)
  parsed ← or_raise (urlsplit py start_url) uncaught_value_error
  domain ←
      or_raise (hostname py parsed) (validation_error (literal "URL does not contain a hostname"))
  ok (record {
    domain = domain;
    root_url = urlunsplit parsed.scheme parsed.netloc [] [];
    start_url = start_url;
  })
