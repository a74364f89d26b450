-- ===== src/Url/Scope.antt =====
-- CrawlScope and is_internal_url
use webintel.Prelude.{Bool, true, false, Option, none, some, Text, ◌==◌, text_Eq, if◌then◌else◌}
use webintel.Prelude.Result.{Result, ok, err, ◌>>=◌, or_raise}
use webintel.Py.Tables.{Python}
use webintel.Py.Split.{urlsplit, hostname}
use webintel.Url.Errors.{
  UrlError, value_error, normalization_error, no_hostname, is_normalization_error,
}
use webintel.Url.Normalize.{normalize_url}
pub mod Internal

-- `except UrlNormalizationError: return default`
abbrev pub except {ℓ} : {A : Type ℓ} → Result UrlError A → A → Result UrlError A
except (ok a) default = ok a
except (err e) default = if is_normalization_error e then ok default else err e

pub record CrawlScope : Type 0 where
  pub hostname : Text

-- `option == text`
abbrev pub option_is : Option Text → Text → Bool
option_is none t = false
option_is (some s) t = s == t

module _ (py : Python) where
  -- urlsplit(url).hostname
  unfoldable pub url_hostname : Text → Result UrlError (Option Text)
  url_hostname url = do parsed ← or_raise (urlsplit py url) value_error; ok (hostname py parsed)

  unfoldable pub from_url : Text → Result UrlError CrawlScope
  from_url url = do
    normalized ← normalize_url py url none false
    found ← url_hostname normalized
    host ← or_raise found (normalization_error no_hostname)
    ok (record { hostname = host })

  -- `contains`, behind its `try`
  in_scope : CrawlScope → Text → Result UrlError Bool
  in_scope scope normalized = do
    found ← url_hostname normalized
    ok (option_is found scope.hostname)

  -- The `try` of `contains` holds the call of `normalize_url` alone.
  after_try : CrawlScope → Result UrlError Text → Result UrlError Bool
  after_try scope (ok normalized) = in_scope scope normalized
  after_try scope (err e) = if is_normalization_error e then ok false else err e

  unfoldable pub contains : CrawlScope → Text → Result UrlError Bool
  unfolding after_try in_scope
  contains scope url = after_try scope (normalize_url py url none false)

  unfoldable pub is_internal_url : Text → Text → Result UrlError Bool
  is_internal_url url root_url = except (do scope ← from_url root_url; contains scope url) false
