-- ===== src/Fetch/Page/Bounds.antt =====
-- `fetch` ends, within its redirects and its attempts.
use webintel.Prelude.{ℕ, zero, suc, ◌+◌, ◌≤◌, ◌≡◌, true, List, Option, none, Text, arith, length}
use webintel.Prelude.Result.{Result, ok, err}
use webintel.Py.Tables.{Python}
use webintel.Url.Errors.{UrlError}
use webintel.Url.Normalize.{normalize_url}
use webintel.Url.Public.{ResolvedPublicTarget}
use webintel.Fetch.Network.{Network}
use webintel.Fetch.Config.{Config}
use webintel.Fetch.Pinned.{Approved}
use webintel.Fetch.Retry.{request_with_retries}
use webintel.Fetch.Retry.Trace.{opens, closes, requests, request_with_retries-law}
use webintel.Fetch.Page.{
  Fetcher, Loop, Visit, follow, stop, approve_if, on_approved, on_validated, visit, visits,
  from_requested, fetch,
}
use webintel.Fetch.Page.Outcomes
use webintel.Fetch.Page.Outcomes.{IsBounded}

module _ (py : Python) (net : Network) (config : Config) (accepted : List Text) (requested : Text)
    (started : net.Time) (delays : config.retries ≤ length config.backoffs) (o c r : ℕ) where
  abbrev LoopLaw : Loop net → Type 0
  LoopLaw = Outcomes.LoopLaw py net config accepted requested started delays o c r

  abbrev VisitLaw : ℕ → Visit net → Type 0
  VisitLaw = Outcomes.VisitLaw py net config accepted requested started delays o c r

  approved-law :
      (l : Loop net) (approved : Result UrlError (Option Approved))
      → LoopLaw l
      → VisitLaw
          (length l.redirect_chain)
          (on_approved py net config accepted requested started l approved)
  unfolding on_approved
  approved-law l (err e) h = record {
    sent = l.total_attempts;
    balance = h.balance;
    count = h.count;
    limit =
        Outcomes.below_limit py net config accepted requested started delays o c r l
          (omega (arith, h.attempts)) h.redirects;
    outcome = tt;
  }
  approved-law l (ok approved) h =
      Outcomes.on_result-law py net config accepted requested started delays o c r
        (record l { fetcher = record l.fetcher { approved = approved } })
        (request_with_retries py net config accepted l.current_url l.fetcher.outside)
        (h.attempts, h.redirects)
        (request_with_retries-law py net config accepted l.current_url l.fetcher.outside o c
          (r + l.total_attempts) delays h.balance h.count)

  validated-law :
      (l : Loop net) (answer : Result UrlError ResolvedPublicTarget × net.World)
      → LoopLaw l
      → VisitLaw
          (length l.redirect_chain)
          (on_validated py net config accepted requested started l answer)
  unfolding on_validated opens closes requests
  validated-law l (err e, w) h = record {
    sent = l.total_attempts;
    balance = h.balance;
    count = h.count;
    limit =
        Outcomes.below_limit py net config accepted requested started delays o c r l
          (omega (arith, h.attempts)) h.redirects;
    outcome = tt;
  }
  validated-law l (ok target, w) h =
      approved-law _ (approve_if py net config accepted requested started l.fetcher.approved target)
        (record {
          balance = h.balance;
          count = h.count;
          attempts = h.attempts;
          redirects = h.redirects;
        })

  visit-law :
      (l : Loop net)
      → LoopLaw l
      → VisitLaw (length l.redirect_chain) (visit py net config accepted requested started l)
  unfolding visit
  visit-law l h = validated-law l (net.validate l.fetcher.outside.world l.current_url) h

  visits-law :
      (fuel : ℕ) (l : Loop net)
      → fuel + length l.redirect_chain ≡ config.max_redirects + 1
      → LoopLaw l
      → IsBounded config o c r (visits py net config accepted requested started fuel l)
  unfolding visits
  visits-law zero l e h = absurd (omega (arith, h.redirects))
  visits-law (suc fuel) l e h =
      next (visit py net config accepted requested started l) (visit-law l h)
        (λ l'. visits-law fuel l')
    where
      next :
          (v : Visit net)
          → VisitLaw (length l.redirect_chain) v
          → ((l' : Loop net)
              → fuel + length l'.redirect_chain ≡ config.max_redirects + 1
              → LoopLaw l'
              → IsBounded config o c r (visits py net config accepted requested started fuel l'))
          → IsBounded {net = net} config o c r (elim v [
            | follow l' ↦ visits py net config accepted requested started fuel l'
            | stop result fetcher ↦ (result, fetcher)
          ])
      next (follow l') (k, longer) ih = ih l' (omega (arith, longer)) k
      next (stop result fetcher) k ih = k

-- With a delay for each retry, `fetch` ends, whatever the network answers: it closes every response
-- that it opens, and sends at most (retries + 1) * (max_redirects + 1) requests. A result reports as
-- attempts exactly the requests that were sent, and has followed at most `max_redirects` redirects,
-- with at most retries + 1 requests for each URL. An error is one of a URL function, an exception
-- that the client or the decoding raised, or one of the four subclasses of FetchError, which report
-- exactly the requests that were sent; it is never an IndexError or an AssertionError.
pub fetch_bounds :
    (py : Python) (net : Network) (config : Config) (accepted : List Text) (url : Text)
    (fetcher : Fetcher net)
    → config.retries ≤ length config.backoffs
    → IsBounded config
        (opens fetcher.outside.log)
        (closes fetcher.outside.log)
        (requests fetcher.outside.log)
        (fetch py net config accepted url fetcher)
unfolding fetch
fetch_bounds py net config accepted url fetcher delays = start (normalize_url py url none true)
  where
    start :
        (target : Result UrlError Text)
        → IsBounded config
            (opens fetcher.outside.log)
            (closes fetcher.outside.log)
            (requests fetcher.outside.log)
            (from_requested py net config accepted
              (net.monotonic fetcher.outside.world)
              fetcher
              target)
    start (err e) = record {
      sent = 0;
      balance = omega arith;
      count = omega arith;
      limit = omega arith;
      outcome = tt;
    }
    start (ok target) =
        visits-law py net config accepted target (net.monotonic fetcher.outside.world) delays
          (opens fetcher.outside.log) (closes fetcher.outside.log) (requests fetcher.outside.log)
          (config.max_redirects + 1) _ (omega arith)
          (record {
            balance = omega arith;
            count = omega arith;
            attempts = omega arith;
            redirects = omega arith;
          })
