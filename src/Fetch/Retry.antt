-- ===== src/Fetch/Retry.antt =====
-- PageFetcher._request_with_retries
use webintel.Prelude.{
  ℕ, zero, suc, ◌+◌, Bool, true, false, not, ◌&&◌, ◌||◌, List, [], ◌∷◌, Option, none, some, Text,
  ltb, leb, ◌==◌, nat_Eq, text_Eq, if◌then◌else◌, contains, codes, get_elem?, is_some,
}
use webintel.Prelude.Result.{Result, ok, err}
use webintel.Py.Tables.{Python}
use webintel.Fetch.Network.{
  HttpError, timeout, transport, other, Response, Event, requested, opened, closed, slept, Network,
}
use webintel.Fetch.Content.{
  is_transient, is_redirect_code, nonempty, media_type, ReadError, too_large, failed, read_limited,
}
use webintel.Fetch.Config.{Config}
pub mod Trace
pub mod Keeps

-- _FetchedResponse
pub record FetchedResponse : Type 0 where
  pub status_code : ℕ
  pub header : Text → Option Text
  pub content_type : Option Text
  pub text : Option Text

-- What a request may raise: ResponseTooLargeError with its attempts, an exception of the client or
-- of decoding, and what only a wrong configuration raises: IndexError at a missing delay, and the AssertionError.
pub data RequestError : Type 0 where
  response_too_large : ℕ → RequestError
  http_error : HttpError → RequestError
  index_error assertion_error : RequestError

-- The value of a header that is present and not empty.
abbrev pub filled : Option Text → Option Text
filled none = none
filled (some value) = nonempty value

abbrev pub in_types : List Text → Option Text → Bool
in_types accepted none = false
in_types accepted (some t) = contains accepted t

-- The world, and what was done to it, the newest first.
pub record State (net : Network) : Type 0 where
  pub world : net.World
  pub log : List Event

-- How one round of the loop ends.
pub data Round (net : Network) : Type 0 where
  again : State net → Round net
  finished : Result RequestError (FetchedResponse × ℕ) → State net → Round net

-- `response.encoding or "utf-8"`
abbrev pub encoding_or_utf8 : Option Text → Text
encoding_or_utf8 (some (c ∷ s)) = c ∷ s
encoding_or_utf8 _ = codes "utf-8"

module _ (py : Python) (net : Network) (config : Config) (accepted : List Text) (url : Text) where
  abbrev close : State net → State net
  close s = record { world = net.after_close s.world; log = closed ∷ s.log }

  -- The closing of a response that may not be there.
  abbrev close_if : Bool → State net → State net
  close_if received s = if received then close s else s

  -- await self._sleep(self._backoffs[attempt])
  pub sleep_after : ℕ → State net → Round net
  sleep_after attempt s = elim (get_elem? config.backoffs attempt) [
    | none ↦ finished (err index_error) s
    | some delay ↦
        again (record { world = net.after_sleep s.world delay; log = slept delay ∷ s.log })
  ]

  pub retry_or_raise : ℕ → HttpError → State net → Round net
  retry_or_raise attempt e s =
      if leb config.retries attempt then finished (err (http_error e)) s else sleep_after attempt s

  -- The handlers of the exceptions of the client, and `finally`.
  pub on_error : ℕ → HttpError → Bool → State net → Round net
  on_error attempt other received s = finished (err (http_error other)) (close_if received s)
  on_error attempt e received s = retry_or_raise attempt e (close_if received s)

  abbrev fetched : Response → Option Text → FetchedResponse
  fetched r text = record {
    status_code = r.status_code;
    header = r.header;
    content_type = media_type py (r.header (codes "content-type"));
    text = text;
  }

  -- An exception of `decode` is caught by no handler; `finally` closes the response.
  pub after_decode : ℕ → Response → Option Text → State net → Round net
  after_decode attempt r (some text) s =
      finished (ok (fetched r (some text), attempt + 1)) (close s)
  after_decode attempt r none s = finished (err (http_error other)) (close s)

  pub after_read : ℕ → Response → Result ReadError (List ℕ) → State net → Round net
  after_read attempt r (ok content) s =
      after_decode attempt r (net.decode (encoding_or_utf8 r.encoding) content) s
  after_read attempt r (err too_large) s =
      finished (err (response_too_large (attempt + 1))) (close s)
  after_read attempt r (err (failed e)) s = on_error attempt e true s

  -- Only the text of an accepted type is read, and not that of a redirect.
  abbrev wants_text : Response → Bool
  wants_text r =
      not (is_redirect_code r.status_code && is_some (filled (r.header (codes "location"))))
      && in_types accepted (media_type py (r.header (codes "content-type")))

  pub on_response : ℕ → Response → State net → Round net
  on_response attempt r s =
      if is_transient r.status_code && ltb attempt config.retries
      then sleep_after attempt (close s)
      else if wants_text r
      then after_read attempt r (read_limited py r config.max_response_bytes) s
      else finished (ok (fetched r none, attempt + 1)) (close s)

  pub on_sent : ℕ → Result HttpError Response × net.World → List Event → Round net
  on_sent attempt (ok r, w) log = on_response attempt r (record { world = w; log = opened ∷ log })
  on_sent attempt (err e, w) log = on_error attempt e false (record { world = w; log = log })

  -- One round of the loop.
  pub try_once : ℕ → State net → Round net
  try_once attempt s = on_sent attempt (net.send s.world url) (requested url ∷ s.log)

  -- `for attempt in range(retries + 1)`, by the number of the rounds that are left
  pub rounds : ℕ → ℕ → State net → Result RequestError (FetchedResponse × ℕ) × State net
  rounds zero attempt s = (err assertion_error, s)
  rounds (suc left) attempt s = elim (try_once attempt s) [
    | again s' ↦ rounds left (attempt + 1) s'
    | finished result s' ↦ (result, s')
  ]

  unfoldable pub request_with_retries :
      State net → Result RequestError (FetchedResponse × ℕ) × State net
  request_with_retries s = rounds (config.retries + 1) 0 s
