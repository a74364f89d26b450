-- ===== src/Robots/Cache.antt =====
-- A policy is loaded once for an origin, and loading it asks only validated targets.
use webintel.Prelude.{
  ◌≡◌, refl, ap, ◌∙◌, true, Option, none, some, Text, ==_refl, text_Eq, Option-cases, inl, inr,
}
use webintel.Prelude.Dict
use webintel.Prelude.Result.{Result, ok, err}
use webintel.Py.Tables.{Python}
use webintel.Url.Errors.{UrlError}
use webintel.Url.Normalize.{normalize_url}
use webintel.Fetch.Network.{Network}
use webintel.Fetch.Config.{Config}
use webintel.Fetch.Page.{FetchError, Fetcher}
use webintel.Fetch.Page.Guarded.{IsGuarded, fetch-IsGuarded}
use webintel.Robots.{
  RobotParser, robots_content_types, RobotsDecision, origin_of, RobotsPolicy, robots_url, load,
  store, policy_for, decide, check_origin, check_normalized, check,
}

module _ (py : Python) (net : Network) (config : Config) (robots : RobotParser) where
  open robots use {Policy}

  -- The policy is stored, and everything else but the fetcher is as before.
  abbrev Stored :
      RobotsPolicy py net config robots
      → Text
      → Result FetchError Policy × RobotsPolicy py net config robots
      → Type 0
  Stored s origin (ok policy, s') =
      (Dict.get s'.policies origin ≡ some policy) × (s'.user_agent ≡ s.user_agent)
  Stored s origin (err e, s') = s'.policies ≡ s.policies

  store-Stored :
      (s : RobotsPolicy py net config robots) (origin : Text)
      (loaded : Result FetchError Policy × Fetcher net)
      → Stored s origin (store py net config robots s origin loaded)
  store-Stored s origin (ok policy, fetcher) =
      (Dict.get-set s.policies origin origin policy ∙ rw (==_refl {A = Text} origin) refl, refl)
  store-Stored s origin (err e, fetcher) = refl

  policy_for-Stored :
      (s : RobotsPolicy py net config robots) (origin : Text)
      → Stored s origin (policy_for py net config robots s origin)
  unfolding policy_for
  policy_for-Stored s origin = elim (Option-cases (Dict.get s.policies origin)) [
    | inl n ↦
        rw (policy_for, n) (store-Stored s origin (load py net config robots origin s.fetcher))
    | inr (policy, e) ↦ rw (policy_for, e) (e, refl)
  ]

  policy_for-cached :
      (s : RobotsPolicy py net config robots) (origin : Text) (policy : Policy)
      → Dict.get s.policies origin ≡ some policy
      → policy_for py net config robots s origin ≡ (ok policy, s)
  unfolding policy_for
  policy_for-cached s origin policy e = rw (policy_for, e) refl

  -- If this answer is a decision, then the same call gives it again, and changes nothing.
  abbrev pub Repeats :
      (RobotsPolicy py net config robots
        → Result FetchError RobotsDecision × RobotsPolicy py net config robots)
      → Result FetchError RobotsDecision × RobotsPolicy py net config robots
      → Type 0
  Repeats again (ok decision, s) = again s ≡ (ok decision, s)
  Repeats again (err e, s) = Unit

  decide-Repeats :
      (s : RobotsPolicy py net config robots) (url origin : Text)
      (found : Result FetchError Policy × RobotsPolicy py net config robots)
      → Stored s origin found
      → Repeats
          (λ s'. decide py net config robots url (policy_for py net config robots s' origin))
          (decide py net config robots url found)
  decide-Repeats s url origin (ok policy, s') h =
      ap (decide py net config robots url) (policy_for-cached s' origin policy h.0)
  decide-Repeats s url origin (err e, s') h = tt

  check_origin-Repeats :
      (s : RobotsPolicy py net config robots) (url : Text) (o : Option Text)
      → Repeats
          (λ s'. check_origin py net config robots s' url o)
          (check_origin py net config robots s url o)
  check_origin-Repeats s url none = tt
  check_origin-Repeats s url (some origin) =
      decide-Repeats s url origin (policy_for py net config robots s origin)
        (policy_for-Stored s origin)

  check_normalized-Repeats :
      (s : RobotsPolicy py net config robots) (m : Result UrlError Text)
      → Repeats
          (λ s'. check_normalized py net config robots s' m)
          (check_normalized py net config robots s m)
  check_normalized-Repeats s (err e) = tt
  check_normalized-Repeats s (ok url) = check_origin-Repeats s url (origin_of py url)

  abbrev pub IsGuardedPolicy : RobotsPolicy py net config robots → Type 0
  IsGuardedPolicy s = IsGuarded s.fetcher.outside.log

  store-IsGuarded :
      (s : RobotsPolicy py net config robots) (origin : Text)
      (loaded : Result FetchError Policy × Fetcher net)
      → IsGuarded loaded.1.outside.log
      → IsGuardedPolicy (store py net config robots s origin loaded).1
  store-IsGuarded s origin (ok policy, fetcher) h = h
  store-IsGuarded s origin (err e, fetcher) h = h

  policy_for-IsGuarded :
      (s : RobotsPolicy py net config robots) (origin : Text)
      → IsGuardedPolicy s
      → IsGuardedPolicy (policy_for py net config robots s origin).1
  unfolding policy_for load
  policy_for-IsGuarded s origin h = elim (Option-cases (Dict.get s.policies origin)) [
    | inr (policy, e) ↦ rw (policy_for, e) h
    | inl n ↦
        rw (policy_for, n)
          (store-IsGuarded s origin (load py net config robots origin s.fetcher) (
            fetch-IsGuarded py net config robots_content_types
              (robots_url py net config robots origin) s.fetcher h))
  ]

  decide-IsGuarded :
      (url : Text) (found : Result FetchError Policy × RobotsPolicy py net config robots)
      → IsGuardedPolicy found.1
      → IsGuardedPolicy (decide py net config robots url found).1
  decide-IsGuarded url (ok policy, s) h = h
  decide-IsGuarded url (err e, s) h = h

  check_origin-IsGuarded :
      (s : RobotsPolicy py net config robots) (url : Text) (o : Option Text)
      → IsGuardedPolicy s
      → IsGuardedPolicy (check_origin py net config robots s url o).1
  check_origin-IsGuarded s url none h = h
  check_origin-IsGuarded s url (some origin) h =
      decide-IsGuarded url (policy_for py net config robots s origin)
        (policy_for-IsGuarded s origin h)

  check_normalized-IsGuarded :
      (s : RobotsPolicy py net config robots) (m : Result UrlError Text)
      → IsGuardedPolicy s
      → IsGuardedPolicy (check_normalized py net config robots s m).1
  check_normalized-IsGuarded s (err e) h = h
  check_normalized-IsGuarded s (ok url) h = check_origin-IsGuarded s url (origin_of py url) h

-- If every request of the log was for a validated target, then so it is after a check of a URL
-- against the robots policy, whatever the network answers. And a check that ends in a decision gives
-- the same decision when it is asked again, with no request and no other change.
pub check_lem :
    (py : Python) (net : Network) (config : Config) (robots : RobotParser)
    (s : RobotsPolicy py net config robots) (url : Text)
    → IsGuarded s.fetcher.outside.log
    → IsGuarded (check py net config robots s url).1.fetcher.outside.log
      × Repeats py net config robots
          (λ s'. check py net config robots s' url)
          (check py net config robots s url)
unfolding check
check_lem py net config robots s url h = (
  check_normalized-IsGuarded py net config robots s (normalize_url py url none true) h,
  check_normalized-Repeats py net config robots s (normalize_url py url none true),
)
