-- ===== src/Lib.antt =====
-- The crawler of WebIntel (URL handling, page fetcher, robots policy, parser and extractors), and
-- the crawl jobs and health routes of its API.
--
-- A client posts a URL to the API. `normalize_crawl_target` gives its canonical form, a website and
-- a queued crawl job are stored, and the job is sent to the queue. The fetcher gets pages for a
-- job: it normalises and validates each URL before a request, also those of redirects, connects
-- only to the addresses that the validation approved, retries, and reads bodies up to a limit. The
-- robots policy asks the fetcher for /robots.txt once for each origin. The parser gets the links of
-- a page, finds social links and important pages among them, and email addresses in its text.
--
-- Prelude: Boolean tests, texts (lists of code points), dictionaries, results of fallible code.
-- Py: what the code uses of Python's standard library. Py.Str are methods of str; Py.Split is
--   urlsplit, its properties hostname, port and credentials, and urlunsplit; Py.Posix is
--   posixpath.normpath. Py.Tables is a record of what runs on tables of its own (Unicode case,
--   HTML entities, IDNA, parse_qsl, urlencode, urljoin, ipaddress): a parameter of the model.
-- Url: app/services/crawler/url_normalizer.py. Url.Errors are its exceptions, as values;
--   Url.Percent is _normalize_percent_encoding, Url.Path is _normalize_path, Url.Query is
--   _normalize_query, Url.Host are _canonicalize_hostname, _direct_address,
--   _ensure_public_address and the rule for host names, Url.Normalize is normalize_url (in parts,
--   in the order of its statements), Url.Scope is CrawlScope and is_internal_url, Url.Public is
--   validate_public_url and the system resolver.
-- Fetch: app/services/crawler/fetcher.py. Fetch.Network is what it uses of httpx, the clock and
--   the event loop: a world that requests change, a parameter; and a log of the events, the newest
--   first. Fetch.Content is _read_limited, _media_type and _content_length, Fetch.Config is the
--   check of PageFetcher's limits, Fetch.Settings is app/core/config.py and from_settings,
--   Fetch.Retry is _request_with_retries, Fetch.Pinned is PinnedNetworkBackend, Fetch.Page is fetch.
-- Jobs: Jobs.Models are the rows of app/db/models/website.py and crawl_job.py, Jobs.Database is
--   what the repositories use of SQLAlchemy and the routes of Celery, a parameter with laws;
--   Jobs.Errors is app/core/errors.py, Jobs.Intake is app/services/url_intake.py, Jobs.Repository
--   is app/db/repositories/crawl_job_repository.py and website_repository.py, Jobs.Routes
--   is app/api/routes/crawl_jobs.py. Jobs.Repository.Lifecycle is the life of a job under any
--   sequence of the repository's operations, as a step relation.
-- Html: what the extractors use of BeautifulSoup, a parameter: elements with their attributes, and
--   strings with their parents, in the order of the document.
-- Links: Links.Extract is app/services/crawler/link_extractor.py, Links.Social is
--   social_link_detector.py and Links.Important is important_page_detector.py beside it.
-- Parsing: Parsing.Emails is app/services/crawler/email_extractor.py (its pattern as a scanner),
--   Parsing.Parse is parser.py beside it, which composes all the extractors.
-- Robots: app/services/crawler/robots.py over the fetcher, with RobotFileParser as a parameter.
--   Robots.Tasks are concurrent calls of _policy_for, each atomic between two awaits, as a step
--   relation on the policies, the locks with their queues of waiting tasks, and the place of each
--   task; Robots.Safety, Robots.Queues and Robots.Fair are about its states, and Robots.Atomic is
--   what its callers see of them.
-- Pages: app/db/models/page.py and app/db/repositories/page_repository.py over a database with laws.
-- Schema: the tables as data. Schema.Main and Schema.Models are the models of app/db/models,
--   Schema.Convention is app/db/base.py with its naming convention, Schema.Created and
--   Schema.Initial are the tables and the statements of the first migration,
--   alembic/versions/ef027d82d5e6_create_initial_schema.py. Schema.Catalog is the effect of a
--   statement as PostgreSQL documents it; the database is a parameter that has this effect.
-- Health: app/api/routes/health.py; what the probes do is a parameter.
-- Logging: app/core/logging.py, its JsonFormatter; json.dumps is a parameter.
-- App: lifespan of app/main.py and get_database_session of app/db/session.py: the resources that
--   are made, closed and logged about, with the libraries as a parameter.
-- Samples: concrete parameters, and the theorems at them.
--
-- Bounds and fuel: the loop of `fetch` runs on max_redirects + 1 rounds and that of
-- `_request_with_retries` on retries + 1, as its range has; the bodies are finite. Running out is
-- an outcome of its own, and the bounds of `fetch` exclude it. Sizes and limits are natural
-- numbers; seconds are given in milliseconds; UUIDs and times are numbers.
--
-- Not modelled: the environment of the migrations, and the set-up of httpx, SQLAlchemy, Celery,
-- FastAPI and logging, which are calls of libraries alone.
pub mod Prelude
pub mod Py
pub mod Url
pub mod Fetch
pub mod Html
pub mod Links
pub mod Parsing
pub mod Robots
pub mod Jobs
pub mod Pages
pub mod Schema
pub mod Health
pub mod Logging
pub mod App
pub mod Samples
