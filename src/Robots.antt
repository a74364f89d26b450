-- ===== src/Robots.antt =====
-- app/services/crawler/robots.py
use webintel.Prelude.{
  ℕ, Bool, true, false, ◌&&◌, ◌||◌, List, [], ◌∷◌, ◌++◌, Option, none, some, Text, codes, leb, ltb,
  ◌==◌, nat_Eq, text_Eq, if◌then◌else◌,
}
use webintel.Prelude.Dict
use webintel.Prelude.Dict.{Dict}
use webintel.Prelude.Result.{Result, ok, err, ◌>>=◌, or_raise}
use webintel.Py.Str.{partition, split_lines}
use webintel.Py.Tables.{Python}
use webintel.Py.Split.{SplitResult, urlsplit, urlunsplit}
use webintel.Url.Errors.{UrlError, value_error, is_normalization_error}
use webintel.Url.Normalize.{normalize_url}
use webintel.Fetch.Network.{Network}
use webintel.Fetch.Config.{Config}
use webintel.Fetch.Page.{
  FetchResult, FetchError, url_error, fetch_timeout_error, fetch_network_error,
  redirect_fetch_error, response_too_large_error, client_error, index_error, assertion_error,
  out_of_fuel, Fetcher, fetch,
}
pub mod Atomic
pub mod Cache
pub mod Queues
pub mod Fair
pub mod Safety
pub mod Tasks

-- urllib.robotparser.RobotFileParser: a parameter of the model. `parse` changes a parser.
pub record RobotParser : Type 1 where
  pub Policy : Type 0
  pub new : Text → Policy
  pub parse : Policy → List Text → Policy
  pub can_fetch : Policy → Text → Text → Bool
  pub crawl_delay : Policy → Text → Option ℕ

abbrev pub robots_content_types : List Text
robots_content_types =
    codes "text/plain" ∷ codes "text/html" ∷ codes "application/octet-stream" ∷ []

pub record RobotsDecision : Type 0 where
  pub allowed : Bool
  pub crawl_delay_seconds : Option ℕ

abbrev pub allow_all : List Text
allow_all = codes "User-agent: *" ∷ codes "Allow: /" ∷ []

-- `except (FetchError, UrlNormalizationError)`
abbrev pub is_caught : FetchError → Bool
is_caught (url_error e) = is_normalization_error e
is_caught (fetch_timeout_error f) = true
is_caught (fetch_network_error f) = true
is_caught (redirect_fetch_error f) = true
is_caught (response_too_large_error f) = true
is_caught _ = false

-- _origin; `none` is the ValueError of urlsplit
unfoldable pub origin_of : Python → Text → Option Text
origin_of py url = elim (urlsplit py url) [
  | none ↦ none
  | some parsed ↦ some (urlunsplit parsed.scheme parsed.netloc [] [])
]

module _ (py : Python) (net : Network) (config : Config) (robots : RobotParser) where
  open robots use {Policy}

  -- A RobotsPolicy: the fetcher, the product token of the user agent, the policies by origin.
  pub record RobotsPolicy : Type 0 where
    pub fetcher : Fetcher net
    pub user_agent : Text
    pub policies : Dict Text Policy

  -- __init__
  unfoldable pub new_robots_policy : Fetcher net → Text → RobotsPolicy
  unfolding partition
  new_robots_policy fetcher user_agent = record {
    fetcher = fetcher;
    user_agent = (partition b'/' user_agent).0;
    policies = [];
  }

  abbrev pub robots_url : Text → Text
  robots_url origin = origin ++ codes "/robots.txt"

  abbrev pub is_success : ℕ → Bool
  is_success status_code = leb 200 status_code && ltb status_code 300

  abbrev lines_of : Bool → Option Text → List Text
  lines_of true (some text) = split_lines text
  lines_of _ _ = allow_all

  -- What `_load` makes of the answer of the fetcher.
  unfoldable pub policy_of : Text → Result FetchError FetchResult → Result FetchError Policy
  policy_of origin (ok result) = ok (
      robots.parse (robots.new (robots_url origin))
        (lines_of (is_success result.status_code) result.text))
  policy_of origin (err e) =
      if is_caught e then ok (robots.parse (robots.new (robots_url origin)) allow_all) else err e

  -- _load
  unfoldable pub load : Text → Fetcher net → Result FetchError Policy × Fetcher net
  unfolding policy_of
  load origin fetcher =
      let answer = fetch py net config robots_content_types (robots_url origin) fetcher in
      (policy_of origin answer.0, answer.1)

  abbrev pub store :
      RobotsPolicy
      → Text
      → Result FetchError Policy × Fetcher net
      → Result FetchError Policy × RobotsPolicy
  store s origin (ok policy, fetcher) =
      (ok policy, record s { fetcher = fetcher; policies = Dict.set s.policies origin policy })
  store s origin (err e, fetcher) = (err e, record s { fetcher = fetcher })

  -- _policy_for, when no other task waits for this origin
  unfoldable pub policy_for : RobotsPolicy → Text → Result FetchError Policy × RobotsPolicy
  unfolding load
  policy_for s origin = elim (Dict.get s.policies origin) [
    | some policy ↦ (ok policy, s)
    | none ↦ store s origin (load origin s.fetcher)
  ]

  abbrev pub decide :
      Text
      → Result FetchError Policy × RobotsPolicy
      → Result FetchError RobotsDecision × RobotsPolicy
  decide url (ok policy, s) = (
    ok (record {
      allowed = robots.can_fetch policy s.user_agent url;
      crawl_delay_seconds = robots.crawl_delay policy s.user_agent;
    }),
    s,
  )
  decide url (err e, s) = (err e, s)

  abbrev check_origin :
      RobotsPolicy → Text → Option Text → Result FetchError RobotsDecision × RobotsPolicy
  check_origin s url none = (err (url_error value_error), s)
  check_origin s url (some origin) = decide url (policy_for s origin)

  abbrev pub check_normalized :
      RobotsPolicy → Result UrlError Text → Result FetchError RobotsDecision × RobotsPolicy
  check_normalized s (err e) = (err (url_error e), s)
  check_normalized s (ok url) = check_origin s url (origin_of py url)

  -- check
  unfoldable pub check : RobotsPolicy → Text → Result FetchError RobotsDecision × RobotsPolicy
  unfolding policy_for
  check s url = check_normalized s (normalize_url py url none true)

  abbrev allowed_of :
      Result FetchError RobotsDecision × RobotsPolicy → Result FetchError Bool × RobotsPolicy
  allowed_of (ok decision, s) = (ok decision.allowed, s)
  allowed_of (err e, s) = (err e, s)

  -- RobotsPolicy.can_fetch
  unfoldable pub can_fetch : RobotsPolicy → Text → Result FetchError Bool × RobotsPolicy
  can_fetch s url = allowed_of (check s url)
