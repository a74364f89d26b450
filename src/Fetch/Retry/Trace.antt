-- ===== src/Fetch/Retry/Trace.antt =====
-- What a request with retries does to the outside: how often it sends, and that it closes what it
-- opens.
use webintel.Prelude.{
  ℕ, zero, suc, ◌+◌, ◌≤◌, ◌<◌, ◌≡◌, ◌≢◌, refl, ◌⊎◌, inl, inr, Bool, true, false, ◌&&◌, List, [],
  ◌∷◌, Option, none, some, Text, ltb, if◌then◌else◌, arith, length, get_elem?, Bool-cases,
}
use webintel.Prelude.Result.{Result, ok, err}
use webintel.Py.Tables.{Python}
use webintel.Fetch.Network.{
  HttpError, timeout, transport, other, Response, Event, requested, opened, closed, Network,
}
use webintel.Fetch.Content.{is_transient, ReadError, too_large, failed, read_limited}
use webintel.Fetch.Config.{Config}
use webintel.Fetch.Retry.{
  FetchedResponse, RequestError, response_too_large, http_error, index_error, assertion_error,
  State, wants_text, request_with_retries, Round, again, finished, sleep_after, retry_or_raise,
  on_error, after_decode, after_read, on_response, on_sent, try_once, rounds,
}

unfoldable pub opens : List Event → ℕ
opens [] = 0
opens (opened ∷ l) = suc (opens l)
opens (_ ∷ l) = opens l

unfoldable pub closes : List Event → ℕ
closes [] = 0
closes (closed ∷ l) = suc (closes l)
closes (_ ∷ l) = closes l

unfoldable pub requests : List Event → ℕ
requests [] = 0
requests (requested u ∷ l) = suc (requests l)
requests (_ ∷ l) = requests l

get_elem?-ne-none {ℓ} : {A : Type ℓ} (xs : List A) (i : ℕ) → i < length xs → get_elem? xs i ≢ none
get_elem?-ne-none [] i h = elim h [ ]
get_elem?-ne-none (x ∷ xs) zero h = λ e. absurd (ground (arith, e))
get_elem?-ne-none (x ∷ xs) (suc i) h = get_elem?-ne-none xs i (omega arith)

module _ {net : Network} (config : Config) where
  -- What a request did, from a log with `o` opened and `c` closed responses and `r` requests: all
  -- that was opened is closed, the attempts it reports are the requests that it sent, at most one
  -- more than the retries; a timeout or a transport error comes only after all of them, and no delay
  -- is missing.
  abbrev pub RequestLaw : ℕ → ℕ → ℕ → Result RequestError (FetchedResponse × ℕ) × State net → Type 0
  RequestLaw o c r (ok (f, n), s) =
      (opens s.log + c ≡ closes s.log + o)
      × (requests s.log ≡ r + n)
      × (1 ≤ n)
      × (n ≤ config.retries + 1)
  RequestLaw o c r (err (response_too_large n), s) =
      (opens s.log + c ≡ closes s.log + o)
      × (requests s.log ≡ r + n)
      × (1 ≤ n)
      × (n ≤ config.retries + 1)
  RequestLaw o c r (err (http_error other), s) =
      (opens s.log + c ≡ closes s.log + o)
      × (r ≤ requests s.log)
      × (requests s.log ≤ r + config.retries + 1)
  RequestLaw o c r (err (http_error e), s) =
      (opens s.log + c ≡ closes s.log + o) × (requests s.log ≡ r + config.retries + 1)
  RequestLaw o c r (err index_error, s) = ⊥
  RequestLaw o c r (err assertion_error, s) = ⊥

module _ (py : Python) (net : Network) (config : Config) (accepted : List Text) (url : Text)
    (delays : config.retries ≤ length config.backoffs) where
  -- What is raised in the round after `attempt` others: a timeout or a transport error only when no
  -- retry is left.
  abbrev pub ErrorLaw : ℕ → RequestError → Type 0
  ErrorLaw attempt (response_too_large n) = n ≡ attempt + 1
  ErrorLaw attempt (http_error e) = (e ≡ other) ⊎ (config.retries ≤ attempt)
  ErrorLaw attempt index_error = ⊥
  ErrorLaw attempt assertion_error = ⊥

  -- The log of `s` has `r` requests, and has opened less `o` what it has closed less `c`.
  abbrev Counts : ℕ → ℕ → ℕ → List Event → Type 0
  Counts o c r l = (opens l + c ≡ closes l + o) × (requests l ≡ r)

  abbrev ResultLaw : ℕ → Result RequestError (FetchedResponse × ℕ) → Type 0
  ResultLaw attempt (ok (f, n)) = n ≡ attempt + 1
  ResultLaw attempt (err e) = ErrorLaw attempt e

  abbrev RoundLaw : ℕ → ℕ → ℕ → ℕ → Round net → Type 0
  RoundLaw attempt o c r (again s) = Counts o c r s.log × (attempt < config.retries)
  RoundLaw attempt o c r (finished result s) = Counts o c r s.log × ResultLaw attempt result

  module _ (attempt o c r : ℕ) where
    sleep_after-law :
        (s : State net)
        → Counts o c r s.log
        → attempt < config.retries
        → RoundLaw attempt o c r (sleep_after py net config accepted url attempt s)
    unfolding sleep_after opens closes requests
    sleep_after-law s h k = ground (arith, get_elem?-ne-none config.backoffs attempt)

    retry_or_raise-law :
        (e : HttpError) (s : State net)
        → Counts o c r s.log
        → RoundLaw attempt o c r (retry_or_raise py net config accepted url attempt e s)
    unfolding retry_or_raise
    retry_or_raise-law e s h = ground (arith, sleep_after-law s h)

    on_error-law :
        (e : HttpError) (received : Bool) (s : State net)
        → Counts (o + (if received then 1 else 0)) c r s.log
        → RoundLaw attempt o c r (on_error py net config accepted url attempt e received s)
    unfolding on_error opens closes requests
    on_error-law timeout true s h = retry_or_raise-law timeout _ (ground (arith, h))
    on_error-law timeout false s h = retry_or_raise-law timeout s (ground (arith, h))
    on_error-law transport true s h = retry_or_raise-law transport _ (ground (arith, h))
    on_error-law transport false s h = retry_or_raise-law transport s (ground (arith, h))
    on_error-law other true s h = (ground (arith, h), inl refl)
    on_error-law other false s h = (ground (arith, h), inl refl)

    after_decode-law :
        (answer : Response) (text : Option Text) (s : State net)
        → Counts (o + 1) c r s.log
        → RoundLaw attempt o c r (after_decode py net config accepted url attempt answer text s)
    unfolding after_decode opens closes requests
    after_decode-law answer (some text) s h = ground (arith, h)
    after_decode-law answer none s h = (ground (arith, h), inl refl)

    after_read-law :
        (answer : Response) (content : Result ReadError (List ℕ)) (s : State net)
        → Counts (o + 1) c r s.log
        → RoundLaw attempt o c r (after_read py net config accepted url attempt answer content s)
    unfolding after_read opens closes requests
    after_read-law answer (ok content) s h = after_decode-law answer _ s h
    after_read-law answer (err too_large) s h = ground (arith, h)
    after_read-law answer (err (failed e)) s h = on_error-law e true s h

    on_response-law :
        (answer : Response) (s : State net)
        → Counts (o + 1) c r s.log
        → RoundLaw attempt o c r (on_response py net config accepted url attempt answer s)
    unfolding on_response opens closes requests
    on_response-law answer s h =
        elim (Bool-cases (is_transient answer.status_code && ltb attempt config.retries)) [
          | inl retry ↦ rw retry (sleep_after-law _ (ground (arith, h)) (ground (arith, retry)))
          | inr last ↦ rw last (elim (Bool-cases (wants_text py net config accepted url answer)) [
            | inl wanted ↦
                rw wanted
                  (after_read-law answer (read_limited py answer config.max_response_bytes) s h)
            | inr not_wanted ↦ rw not_wanted (ground (arith, h))
          ])
        ]

    on_sent-law :
        (sent : Result HttpError Response × net.World) (l : List Event)
        → Counts o c r l
        → RoundLaw attempt o c r (on_sent py net config accepted url attempt sent l)
    unfolding on_sent opens closes requests
    on_sent-law (ok answer, w) l h = on_response-law answer _ (ground (arith, h))
    on_sent-law (err e, w) l h = on_error-law e false _ (ground (arith, h))

  try_once-law :
      (attempt o c r : ℕ) (s : State net)
      → Counts o c r s.log
      → RoundLaw attempt o c (r + 1) (try_once py net config accepted url attempt s)
  unfolding try_once opens closes requests
  try_once-law attempt o c r s h =
      on_sent-law attempt o c (r + 1) (net.send s.world url) (requested url ∷ s.log)
        (ground (arith, h))

  finish-law :
      (attempt o c r : ℕ) (result : Result RequestError (FetchedResponse × ℕ)) (s : State net)
      → attempt ≤ config.retries
      → Counts o c (r + attempt + 1) s.log
      → ResultLaw attempt result
      → RequestLaw config o c r (result, s)
  finish-law attempt o c r (ok (f, n)) s le h k = ground (arith, h, k)
  finish-law attempt o c r (err (response_too_large n)) s le h k = ground (arith, h, k)
  finish-law attempt o c r (err (http_error timeout)) s le h k = ground (arith, h, k)
  finish-law attempt o c r (err (http_error transport)) s le h k = ground (arith, h, k)
  finish-law attempt o c r (err (http_error other)) s le h k = ground (arith, h, k)
  finish-law attempt o c r (err index_error) s le h k = k
  finish-law attempt o c r (err assertion_error) s le h k = k

  rounds-law :
      (left attempt o c r : ℕ) (s : State net)
      → left + attempt ≡ config.retries + 1
      → attempt ≤ config.retries
      → Counts o c (r + attempt) s.log
      → RequestLaw config o c r (rounds py net config accepted url left attempt s)
  unfolding rounds
  rounds-law zero attempt o c r s e le h = absurd (omega arith)
  rounds-law (suc left) attempt o c r s e le h =
      next (try_once py net config accepted url attempt s)
        (try_once-law attempt o c (r + attempt) s h) (λ s'. rounds-law left (attempt + 1) o c r s')
    where
      next :
          (round : Round net)
          → RoundLaw attempt o c (r + attempt + 1) round
          → ((s' : State net)
              → left + (attempt + 1) ≡ config.retries + 1
              → attempt + 1 ≤ config.retries
              → Counts o c (r + (attempt + 1)) s'.log
              → RequestLaw config o c r (rounds py net config accepted url left (attempt + 1) s'))
          → RequestLaw {net = net} config o c r (elim round [
            | again s' ↦ rounds py net config accepted url left (attempt + 1) s'
            | finished result s' ↦ (result, s')
          ])
      next (again s') (k, lt) ih = ih s' (omega arith) (omega arith) (ground (arith, k))
      next (finished result s') (k, law) ih = finish-law attempt o c r result s' le k law

pub request_with_retries-law :
    (py : Python) (net : Network) (config : Config) (accepted : List Text) (url : Text)
    (s : State net) (o c r : ℕ)
    → config.retries ≤ length config.backoffs
    → opens s.log + c ≡ closes s.log + o
    → requests s.log ≡ r
    → RequestLaw config o c r (request_with_retries py net config accepted url s)
unfolding request_with_retries
request_with_retries-law py net config accepted url s o c r delays h k =
    rounds-law py net config accepted url delays (config.retries + 1) 0 o c r s (omega arith)
      (omega arith) (omega arith)

-- With a delay for each retry, a request closes every response that it opens, on every path; its
-- attempts, at most one more than the retries, are the requests that it sends; it raises a timeout
-- or a transport error only after the last of them, and never an IndexError or an AssertionError.
pub request_with_retries_trace :
    (py : Python) (net : Network) (config : Config) (accepted : List Text) (url : Text)
    (s : State net)
    → config.retries ≤ length config.backoffs
    → RequestLaw config
        (opens s.log)
        (closes s.log)
        (requests s.log)
        (request_with_retries py net config accepted url s)
request_with_retries_trace py net config accepted url s delays =
    request_with_retries-law py net config accepted url s (opens s.log) (closes s.log)
      (requests s.log) delays (omega arith) refl
