-- ===== src/Fetch/Page/Guarded.antt =====
-- `fetch` requests only URLs that the validator has returned.
use webintel.Prelude.{
  ℕ, zero, suc, ◌+◌, ◌≡◌, refl, inl, inr, true, false, List, [], ◌∷◌, ◌++◌, Option, none, some,
  Text, leb, length, Bool-cases, codes, Any, text_Eq,
}
use webintel.Prelude.Result.{Result, ok, err}
use webintel.Py.Tables.{Python}
use webintel.Url.Errors.{UrlError}
use webintel.Url.Normalize.{normalize_url}
use webintel.Url.Public.{ResolvedPublicTarget}
use webintel.Fetch.Network.{Event, validated, requested, Network}
use webintel.Fetch.Content.{is_redirect_code}
use webintel.Fetch.Config.{Config}
use webintel.Fetch.Pinned.{Approved}
use webintel.Fetch.Retry.{State, FetchedResponse, RequestError, filled}
use webintel.Fetch.Retry.Keeps.{request_with_retries-Keeps}
use webintel.Fetch.Page.{
  FetchResult, FetchError, Fetcher, Loop, Visit, follow, stop, redirect_to, on_fetched, on_result,
  approve_if, on_approved, on_validated, visit, visits, from_requested, fetch,
}

-- The event is the validation of a target with this URL.
abbrev pub IsValidationOf : Text → Event → Type 0
IsValidationOf url (validated target) = target.url ≡ url
IsValidationOf url _ = ⊥

-- Each request of the log, the newest first, comes after a validation of its URL.
abbrev pub IsGuarded : List Event → Type 0
IsGuarded [] = Unit
IsGuarded (requested url ∷ l) = Any (IsValidationOf url) l × IsGuarded l
IsGuarded (_ ∷ l) = IsGuarded l

module _ (py : Python) (net : Network) (config : Config) (accepted : List Text) (wanted : Text)
    (started : net.Time) where
  abbrev GuardedVisit : Visit net → Type 0
  GuardedVisit (follow l) = IsGuarded l.fetcher.outside.log
  GuardedVisit (stop result f) = IsGuarded f.outside.log

  on_fetched-guarded :
      (l : Loop net) (f : FetchedResponse) (location : Option Text)
      → IsGuarded l.fetcher.outside.log
      → GuardedVisit (on_fetched py net config accepted wanted started l f location)
  unfolding on_fetched
  on_fetched-guarded l f none h = h
  on_fetched-guarded l f (some location) h = elim (Bool-cases (is_redirect_code f.status_code)) [
    | inr final ↦ rw final h
    | inl redirect ↦
        rw redirect (elim (Bool-cases (leb config.max_redirects (length l.redirect_chain))) [
          | inl over ↦ rw over h
          | inr more ↦ rw more (followed (normalize_url py location (some l.current_url) false))
        ])
  ]
    where
      followed :
          (next : Result UrlError Text)
          → GuardedVisit (
              redirect_to py net config accepted wanted started
                (record l { redirect_chain = l.redirect_chain ++ l.current_url ∷ [] })
                next)
      followed (ok url) = h
      followed (err e) = h

  on_result-guarded :
      (l : Loop net) (answer : Result RequestError (FetchedResponse × ℕ) × State net)
      → IsGuarded answer.1.log
      → GuardedVisit (on_result py net config accepted wanted started l answer)
  unfolding on_result
  on_result-guarded l (ok (f, n), s) h =
      on_fetched-guarded _ f (filled (f.header (codes "location"))) h
  on_result-guarded l (err e, s) h = h

  on_approved-guarded :
      (l : Loop net) (approved : Result UrlError (Option Approved))
      → Any (IsValidationOf l.current_url) l.fetcher.outside.log
      → IsGuarded l.fetcher.outside.log
      → GuardedVisit (on_approved py net config accepted wanted started l approved)
  unfolding on_approved
  on_approved-guarded l (err e) v h = h
  on_approved-guarded l (ok approved) v h =
      on_result-guarded _ _
        (request_with_retries-Keeps py net config accepted l.current_url
          (λ log. Any (IsValidationOf l.current_url) log × IsGuarded log) (λ log k. (inr k.0, k.1))
          (λ log d k. (inr k.0, k.1)) (λ log k. (inr k.0, k.1)) (λ log k. (inr k.0, (k.0, k.1)))
          l.fetcher.outside (v, h)).1

  on_validated-guarded :
      (l : Loop net) (answer : Result UrlError ResolvedPublicTarget × net.World)
      → IsGuarded l.fetcher.outside.log
      → GuardedVisit (on_validated py net config accepted wanted started l answer)
  unfolding on_validated
  on_validated-guarded l (err e, w) h = h
  on_validated-guarded l (ok target, w) h =
      on_approved-guarded _
        (approve_if py net config accepted wanted started l.fetcher.approved target) (inl refl) h

  visits-IsGuarded :
      (fuel : ℕ) (l : Loop net)
      → IsGuarded l.fetcher.outside.log
      → IsGuarded (visits py net config accepted wanted started fuel l).1.outside.log
  unfolding visits visit
  visits-IsGuarded zero l h = h
  visits-IsGuarded (suc fuel) l h =
      next (visit py net config accepted wanted started l)
        (on_validated-guarded l (net.validate l.fetcher.outside.world l.current_url) h)
        (λ l'. visits-IsGuarded fuel l')
    where
      answer : Visit net → Result FetchError FetchResult × Fetcher net
      answer v = elim v [
        | follow l' ↦ visits py net config accepted wanted started fuel l'
        | stop result fetcher ↦ (result, fetcher)
      ]

      next :
          (v : Visit net)
          → GuardedVisit v
          → ((l' : Loop net)
              → IsGuarded l'.fetcher.outside.log
              → IsGuarded (visits py net config accepted wanted started fuel l').1.outside.log)
          → IsGuarded (answer v).1.outside.log
      next (follow l') k ih = ih l' k
      next (stop result fetcher) k ih = k

-- Whatever the network and the server answer, also over redirects and retries: `fetch` sends a
-- request only for the URL of a target that the validator returned before, if that was so of the
-- requests of the log at the start.
pub fetch-IsGuarded :
    (py : Python) (net : Network) (config : Config) (accepted : List Text) (url : Text)
    (fetcher : Fetcher net)
    → IsGuarded fetcher.outside.log
    → IsGuarded (fetch py net config accepted url fetcher).1.outside.log
unfolding fetch
fetch-IsGuarded py net config accepted url fetcher h = start (normalize_url py url none true)
  where
    start :
        (target : Result UrlError Text)
        → IsGuarded
            (from_requested py net config accepted
              (net.monotonic fetcher.outside.world)
              fetcher
              target).1.outside.log
    start (err e) = h
    start (ok target) =
        visits-IsGuarded py net config accepted target (net.monotonic fetcher.outside.world)
          (config.max_redirects + 1) _ h
