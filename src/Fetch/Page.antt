-- ===== src/Fetch/Page.antt =====
-- PageFetcher.fetch
use webintel.Prelude.{
  ℕ, zero, suc, ◌+◌, pos_part, Bool, true, false, ◌&&◌, List, [], ◌∷◌, ◌++◌, Option, none, some,
  Text, leb, ◌==◌, nat_Eq, text_Eq, if◌then◌else◌, contains, codes, length, is_some,
}
use webintel.Prelude.Result.{Result, ok, err}
use webintel.Py.Tables.{Python}
use webintel.Url.Errors.{UrlError}
use webintel.Url.Normalize.{normalize_url}
use webintel.Url.Public.{ResolvedPublicTarget}
use webintel.Fetch.Network.{HttpError, timeout, transport, other, Event, validated, Network}
use webintel.Fetch.Content.{html_content_types, is_redirect_code, content_length}
use webintel.Fetch.Config.{Config}
use webintel.Fetch.Pinned.{Approved, approve}
use webintel.Fetch.Retry
use webintel.Fetch.Retry.{
  State, FetchedResponse, RequestError, response_too_large, http_error, in_types, filled,
  request_with_retries,
}
pub mod Outcomes
pub mod Bounds
pub mod Guarded

pub record FetchResult : Type 0 where
  pub requested_url : Text
  pub final_url : Text
  pub status_code : ℕ
  pub content_type : Option Text
  pub text : Option Text
  pub response_time_ms : ℕ
  pub attempts : ℕ
  pub redirect_chain : List Text
  pub content_length : Option ℕ

-- FetchResult.is_html
unfoldable pub is_html : FetchResult → Bool
is_html r = in_types html_content_types r.content_type

-- The fields of a FetchError.
pub record Failure : Type 0 where
  pub url : Text
  pub attempts : ℕ
  pub response_time_ms : ℕ

-- What `fetch` raises: the errors of the URL functions, the subclasses of FetchError, what passes
-- through it from the client or from decoding, and the errors of a wrong configuration. `out_of_fuel` is the model's.
pub data FetchError : Type 0 where
  url_error : UrlError → FetchError
  fetch_timeout_error fetch_network_error redirect_fetch_error : Failure → FetchError
  response_too_large_error : Failure → FetchError
  client_error : HttpError → FetchError
  index_error assertion_error out_of_fuel : FetchError

-- The state of a fetcher: the outside, and what its pinned backend has approved, if it has one.
pub record Fetcher (net : Network) : Type 0 where
  pub outside : State net
  pub approved : Option Approved

-- The variables of the loop.
pub record Loop (net : Network) : Type 0 where
  pub current_url : Text
  pub redirect_chain : List Text
  pub total_attempts : ℕ
  pub fetcher : Fetcher net

-- How one round of the loop ends.
pub data Visit (net : Network) : Type 0 where
  follow : Loop net → Visit net
  stop : Result FetchError FetchResult → Fetcher net → Visit net

module _ (py : Python) (net : Network) (config : Config) (accepted : List Text)
    (requested_url : Text) (started : net.Time) where
  -- _elapsed_ms
  pub elapsed_ms : State net → ℕ
  elapsed_ms s = pos_part (net.milliseconds started (net.monotonic s.world))

  abbrev failure : Text → ℕ → State net → Failure
  failure url attempts s = record {
    url = url;
    attempts = attempts;
    response_time_ms = elapsed_ms s;
  }

  -- The handlers of `fetch`.
  pub raised : RequestError → Text → ℕ → State net → FetchError
  raised (response_too_large n) url total s = response_too_large_error (failure url (total + n) s)
  raised (http_error timeout) url total s =
      fetch_timeout_error (failure url (total + (config.retries + 1)) s)
  raised (http_error transport) url total s =
      fetch_network_error (failure url (total + (config.retries + 1)) s)
  raised (http_error other) url total s = client_error other
  raised Retry.index_error url total s = index_error
  raised Retry.assertion_error url total s = assertion_error

  abbrev redirect_to : Loop net → Result UrlError Text → Visit net
  redirect_to l (ok url) = follow (record l { current_url = url })
  redirect_to l (err e) = stop (err (url_error e)) l.fetcher

  abbrev fetch_result : Loop net → FetchedResponse → FetchResult
  fetch_result l f = record {
    requested_url = requested_url;
    final_url = l.current_url;
    status_code = f.status_code;
    content_type = f.content_type;
    text = f.text;
    response_time_ms = elapsed_ms l.fetcher.outside;
    attempts = l.total_attempts;
    redirect_chain = l.redirect_chain;
    content_length = content_length py (f.header (codes "content-length"));
  }

  -- With the response at hand; `l` has the attempts of this request already.
  pub on_fetched : Loop net → FetchedResponse → Option Text → Visit net
  on_fetched l f none = stop (ok (fetch_result l f)) l.fetcher
  on_fetched l f (some location) =
      if is_redirect_code f.status_code
      then (if leb config.max_redirects (length l.redirect_chain)
          then stop
              (err
                (redirect_fetch_error (failure l.current_url l.total_attempts l.fetcher.outside)))
              l.fetcher
          else redirect_to (record l { redirect_chain = l.redirect_chain ++ l.current_url ∷ [] })
              (normalize_url py location (some l.current_url) false))
      else stop (ok (fetch_result l f)) l.fetcher

  pub on_result : Loop net → Result RequestError (FetchedResponse × ℕ) × State net → Visit net
  on_result l (ok (f, n), s) =
      on_fetched
        (record l {
          total_attempts = l.total_attempts + n;
          fetcher = record l.fetcher { outside = s };
        })
        f (filled (f.header (codes "location")))
  on_result l (err e, s) =
      stop (err (raised e l.current_url l.total_attempts s)) (record l.fetcher { outside = s })

  -- `if self._pinned_backend is not None: self._pinned_backend.approve(target)`
  abbrev approve_if : Option Approved → ResolvedPublicTarget → Result UrlError (Option Approved)
  approve_if none target = ok none
  approve_if (some approved) target = elim (approve py approved target) [
    | ok approved' ↦ ok (some approved')
    | err e ↦ err e
  ]

  pub on_approved : Loop net → Result UrlError (Option Approved) → Visit net
  on_approved l (err e) = stop (err (url_error e)) l.fetcher
  on_approved l (ok approved) =
      on_result (record l { fetcher = record l.fetcher { approved = approved } })
        (request_with_retries py net config accepted l.current_url l.fetcher.outside)

  pub on_validated : Loop net → Result UrlError ResolvedPublicTarget × net.World → Visit net
  on_validated l (err e, w) =
      stop (err (url_error e))
        (record l.fetcher { outside = record l.fetcher.outside { world = w } })
  on_validated l (ok target, w) =
      on_approved
        (record l {
          current_url = target.url;
          fetcher = record l.fetcher {
            outside = record { world = w; log = validated target ∷ l.fetcher.outside.log };
          };
        })
        (approve_if l.fetcher.approved target)

  -- One round of the loop.
  pub visit : Loop net → Visit net
  visit l = on_validated l (net.validate l.fetcher.outside.world l.current_url)

  pub visits : ℕ → Loop net → Result FetchError FetchResult × Fetcher net
  visits zero l = (err out_of_fuel, l.fetcher)
  visits (suc fuel) l = elim (visit l) [
    | follow l' ↦ visits fuel l'
    | stop result fetcher ↦ (result, fetcher)
  ]

module _ (py : Python) (net : Network) (config : Config) (accepted : List Text) where
  abbrev from_requested :
      net.Time → Fetcher net → Result UrlError Text → Result FetchError FetchResult × Fetcher net
  from_requested started fetcher (err e) = (err (url_error e), fetcher)
  from_requested started fetcher (ok url) =
      visits py net config accepted url started (config.max_redirects + 1)
        (record { current_url = url; redirect_chain = []; total_attempts = 0; fetcher = fetcher })

  -- fetch: a round follows at most `max_redirects` others.
  unfoldable pub fetch : Text → Fetcher net → Result FetchError FetchResult × Fetcher net
  fetch url fetcher =
      from_requested (net.monotonic fetcher.outside.world) fetcher (normalize_url py url none true)
