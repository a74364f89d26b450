-- ===== src/Fetch/Network.antt =====
-- What the fetcher uses of httpx, of the clock and of the event loop: a world that every request
-- may change, and the answers that it gives.
use webintel.Prelude.{ℕ, ℤ, List, Option, Text}
use webintel.Prelude.Result.{Result}
use webintel.Url.Errors.{UrlError}
use webintel.Url.Public.{ResolvedPublicTarget}

-- The classes of exceptions that the fetcher tells apart: httpx.TimeoutException (a subclass of
-- TransportError), every other TransportError, and whatever else a call may raise.
pub data HttpError : Type 0 where
  timeout transport other : HttpError

-- The chunks of `response.aiter_bytes()`, which may raise between two of them.
pub data Body : Type 0 where
  done : Body
  chunk : List ℕ → Body → Body
  broken : HttpError → Body

-- httpx.Response, with `headers.get` as a function of the name.
pub record Response : Type 0 where
  pub status_code : ℕ
  pub header : Text → Option Text
  pub encoding : Option Text
  pub body : Body

-- What the program does to the outside, in order.
pub data Event : Type 0 where
  validated : ResolvedPublicTarget → Event
  requested : Text → Event
  opened closed : Event
  slept : ℕ → Event

pub record Network : Type 1 where
  pub World : Type 0
  -- client.send(build_request("GET", url), stream=True)
  pub send : World → Text → Result HttpError Response × World
  -- The validator of the fetcher.
  pub validate : World → Text → Result UrlError ResolvedPublicTarget × World
  -- A response is closed; the task sleeps.
  pub after_close : World → World
  pub after_sleep : World → ℕ → World
  -- The milliseconds, rounded, from one reading of `monotonic()` to another.
  pub Time : Type 0
  pub monotonic : World → Time
  pub milliseconds : Time → Time → ℤ
  -- content.decode(encoding, errors="replace"); `none` is an exception, for instance the
  -- LookupError of a codec that is none for texts.
  pub decode : Text → List ℕ → Option Text
