-- ===== src/Fetch/Retry/Keeps.antt =====
-- What the events of one request keep, the request keeps.
use webintel.Prelude.{
  ℕ, zero, suc, ◌+◌, Bool, true, false, ◌&&◌, List, ◌∷◌, Text, ltb, leb, get_elem?, Bool-cases,
  Option-cases, inl, inr, Option, some, none,
}
use webintel.Prelude.Result.{Result, ok, err}
use webintel.Py.Tables.{Python}
use webintel.Fetch.Network.{
  HttpError, timeout, transport, other, Response, Event, requested, opened, closed, slept, Network,
}
use webintel.Fetch.Content.{is_transient, ReadError, too_large, failed, read_limited}
use webintel.Fetch.Config.{Config}
use webintel.Fetch.Retry.{
  FetchedResponse, RequestError, State, Round, again, finished, wants_text, sleep_after,
  retry_or_raise, on_error, after_decode, after_read, on_response, on_sent, try_once, rounds,
  request_with_retries,
}

module _ (py : Python) (net : Network) (config : Config) (accepted : List Text) (url : Text)
    (P : List Event → Type 0) (on_closed : (l : List Event) → P l → P (closed ∷ l))
    (on_slept : (l : List Event) (d : ℕ) → P l → P (slept d ∷ l))
    (on_opened : (l : List Event) → P l → P (opened ∷ l))
    (on_requested : (l : List Event) → P l → P (requested url ∷ l)) where
  abbrev Keeps : Round net → Type 0
  Keeps (again s) = P s.log
  Keeps (finished result s) = P s.log

  sleep_after-Keeps :
      (attempt : ℕ) (s : State net)
      → P s.log
      → Keeps (sleep_after py net config accepted url attempt s)
  unfolding sleep_after
  sleep_after-Keeps attempt s h = elim (Option-cases (get_elem? config.backoffs attempt)) [
    | inl missing ↦ rw (missing, Keeps, sleep_after) h
    | inr (d, found) ↦ rw (found, Keeps, sleep_after) (on_slept s.log d h)
  ]

  retry_or_raise-Keeps :
      (attempt : ℕ) (e : HttpError) (s : State net)
      → P s.log
      → Keeps (retry_or_raise py net config accepted url attempt e s)
  unfolding retry_or_raise
  retry_or_raise-Keeps attempt e s h = elim (Bool-cases (leb config.retries attempt)) [
    | inl last ↦ rw last h
    | inr more ↦ rw more (sleep_after-Keeps attempt s h)
  ]

  on_error-Keeps :
      (attempt : ℕ) (e : HttpError) (received : Bool) (s : State net)
      → P s.log
      → Keeps (on_error py net config accepted url attempt e received s)
  unfolding on_error
  on_error-Keeps attempt timeout true s h =
      retry_or_raise-Keeps attempt timeout _ (on_closed s.log h)
  on_error-Keeps attempt timeout false s h = retry_or_raise-Keeps attempt timeout s h
  on_error-Keeps attempt transport true s h =
      retry_or_raise-Keeps attempt transport _ (on_closed s.log h)
  on_error-Keeps attempt transport false s h = retry_or_raise-Keeps attempt transport s h
  on_error-Keeps attempt other true s h = on_closed s.log h
  on_error-Keeps attempt other false s h = h

  after_decode-Keeps :
      (attempt : ℕ) (answer : Response) (text : Option Text) (s : State net)
      → P s.log
      → Keeps (after_decode py net config accepted url attempt answer text s)
  unfolding after_decode
  after_decode-Keeps attempt answer (some text) s h = on_closed s.log h
  after_decode-Keeps attempt answer none s h = on_closed s.log h

  after_read-Keeps :
      (attempt : ℕ) (answer : Response) (content : Result ReadError (List ℕ)) (s : State net)
      → P s.log
      → Keeps (after_read py net config accepted url attempt answer content s)
  unfolding after_read
  after_read-Keeps attempt answer (ok content) s h = after_decode-Keeps attempt answer _ s h
  after_read-Keeps attempt answer (err too_large) s h = on_closed s.log h
  after_read-Keeps attempt answer (err (failed e)) s h = on_error-Keeps attempt e true s h

  on_response-Keeps :
      (attempt : ℕ) (answer : Response) (s : State net)
      → P s.log
      → Keeps (on_response py net config accepted url attempt answer s)
  unfolding on_response
  on_response-Keeps attempt answer s h =
      elim (Bool-cases (is_transient answer.status_code && ltb attempt config.retries)) [
        | inl retry ↦ rw retry (sleep_after-Keeps attempt _ (on_closed s.log h))
        | inr last ↦ rw last (elim (Bool-cases (wants_text py net config accepted url answer)) [
          | inl wanted ↦ rw wanted (
              after_read-Keeps attempt answer (read_limited py answer config.max_response_bytes) s
                h)
          | inr not_wanted ↦ rw not_wanted (on_closed s.log h)
        ])
      ]

  on_sent-Keeps :
      (attempt : ℕ) (sent : Result HttpError Response × net.World) (l : List Event)
      → P l
      → Keeps (on_sent py net config accepted url attempt sent l)
  unfolding on_sent
  on_sent-Keeps attempt (ok answer, w) l h = on_response-Keeps attempt answer _ (on_opened l h)
  on_sent-Keeps attempt (err e, w) l h = on_error-Keeps attempt e false _ h

  try_once-Keeps :
      (attempt : ℕ) (s : State net)
      → P s.log
      → Keeps (try_once py net config accepted url attempt s)
  unfolding try_once
  try_once-Keeps attempt s h =
      on_sent-Keeps attempt (net.send s.world url) (requested url ∷ s.log) (on_requested s.log h)

  rounds-Keeps :
      (left attempt : ℕ) (s : State net)
      → P s.log
      → P (rounds py net config accepted url left attempt s).1.log
  unfolding rounds
  rounds-Keeps zero attempt s h = h
  rounds-Keeps (suc left) attempt s h =
      next (try_once py net config accepted url attempt s) (try_once-Keeps attempt s h)
        (λ s'. rounds-Keeps left (attempt + 1) s')
    where
      answer : Round net → Result RequestError (FetchedResponse × ℕ) × State net
      answer round = elim round [
        | again s' ↦ rounds py net config accepted url left (attempt + 1) s'
        | finished result s' ↦ (result, s')
      ]

      next :
          (round : Round net)
          → Keeps round
          → ((s' : State net)
              → P s'.log
              → P (rounds py net config accepted url left (attempt + 1) s').1.log)
          → P (answer round).1.log
      next (again s') k ih = ih s' k
      next (finished result s') k ih = k

  pub request_with_retries-Keeps :
      (s : State net) → P s.log → P (request_with_retries py net config accepted url s).1.log
  unfolding request_with_retries
  request_with_retries-Keeps s h = rounds-Keeps (config.retries + 1) 0 s h
