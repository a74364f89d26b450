-- ===== src/Jobs/Repository.antt =====
-- app/db/repositories: crawl jobs and websites. A change of a job is a function on the object, and
-- its flush is the update of the row.
use webintel.Prelude.{
  ℕ, Bool, true, false, ◌&&◌, List, [], ◌∷◌, Option, none, some, Text, ◌==◌, nat_Eq, text_Eq,
  if◌then◌else◌, keep, take, drop, length,
}
use webintel.Prelude.Result.{Result, ok, err}
use webintel.Py.Tables.{Python}
use webintel.Jobs.Models.{
  new_website, CrawlJobStatus, queued, running, completed, failed, status_Eq, Website, CrawlJob,
}
use webintel.Jobs.Database.{Services, find}
pub mod Lifecycle
pub mod Rows

-- CrawlJob(website_id=..., start_url=..., max_pages=...) with the defaults of the columns
abbrev pub new_job : ℕ → ℕ → ℕ → Text → ℕ → CrawlJob
new_job id created_at website_id start_url max_pages = record {
  id = id;
  website_id = website_id;
  start_url = start_url;
  status = queued;
  max_pages = max_pages;
  pages_crawled = 0;
  pages_failed = 0;
  error_message = none;
  started_at = none;
  finished_at = none;
  created_at = created_at;
}

-- CrawlJobRepository.mark_running, mark_completed, mark_failed at the time `now`
unfoldable pub mark_running : ℕ → CrawlJob → CrawlJob
mark_running now job = record job {
  status = running;
  started_at = some now;
  finished_at = none;
  error_message = none;
}

unfoldable pub mark_completed : ℕ → CrawlJob → ℕ → ℕ → CrawlJob
mark_completed now job pages_crawled pages_failed = record job {
  status = completed;
  pages_crawled = pages_crawled;
  pages_failed = pages_failed;
  finished_at = some now;
}

unfoldable pub mark_failed : ℕ → CrawlJob → Text → CrawlJob
mark_failed now job error_message = record job {
  status = failed;
  error_message = some error_message;
  finished_at = some now;
}

-- CrawlJobRepository.reset_for_retry; `none` is the ValueError
unfoldable pub reset_for_retry : CrawlJob → Option CrawlJob
reset_for_retry job =
    if job.status == failed
    then some (record job {
      status = queued;
      pages_crawled = 0;
      pages_failed = 0;
      error_message = none;
      started_at = none;
      finished_at = none;
    })
    else none

-- The `where` clauses of `list` and `count`.
abbrev pub is_wanted {ℓ} : {A : Type ℓ} → (A → A → Bool) → Option A → A → Bool
is_wanted eq none a = true
is_wanted eq (some b) a = eq a b

unfoldable pub matches : Option ℕ → Option CrawlJobStatus → CrawlJob → Bool
matches website_id status job =
    is_wanted ◌==◌ website_id job.website_id && is_wanted ◌==◌ status job.status

module _ (services : Services) where
  open services use {Db}

  -- CrawlJobRepository.create
  unfoldable pub create_job : Db → ℕ → Text → ℕ → Option (CrawlJob × Db)
  create_job db website_id start_url max_pages =
      let job = new_job (services.uuid db) (services.now db) website_id start_url max_pages in
      elim (services.insert_job db job) [ none ↦ none | some db' ↦ some (job, db') ]

  -- CrawlJobRepository.get_by_id
  unfoldable pub get_by_id : Db → ℕ → Option CrawlJob
  unfolding find
  get_by_id db job_id = find (λ job. job.id == job_id) (services.jobs db)

  -- CrawlJobRepository.list and count
  unfoldable pub list : Db → Option ℕ → Option CrawlJobStatus → ℕ → ℕ → List CrawlJob
  unfolding matches
  list db website_id status offset limit = take limit (
      drop offset
        (services.newest_jobs offset limit (keep (matches website_id status) (services.jobs db))))

  unfoldable pub count : Db → Option ℕ → Option CrawlJobStatus → ℕ
  unfolding matches
  count db website_id status = length (keep (matches website_id status) (services.jobs db))

  -- WebsiteRepository.get_by_domain and create
  unfoldable pub get_by_domain : Python → Db → Text → Option Website
  unfolding find
  get_by_domain py db domain =
      find (λ website. website.domain == py.lower domain) (services.websites db)

  unfoldable pub create_website : Python → Db → Text → Text → Option (Website × Db)
  create_website py db domain root_url =
      let website = new_website (services.uuid db) (services.now db) (py.lower domain) root_url in
      elim (services.insert_website db website) [ none ↦ none | some db' ↦ some (website, db') ]

  -- WebsiteRepository.get_by_id and list
  unfoldable pub get_website : Db → ℕ → Option Website
  unfolding find
  get_website db website_id = find (λ website. website.id == website_id) (services.websites db)

  unfoldable pub list_websites : Db → ℕ → ℕ → List Website
  list_websites db offset limit =
      take limit (drop offset (services.newest_websites offset limit (services.websites db)))
