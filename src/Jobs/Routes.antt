-- ===== src/Jobs/Routes.antt =====
-- app/api/routes/crawl_jobs.py, and what app/schemas/crawl_job.py checks of its input
use webintel.Prelude.{
  ℕ, ℤ, pos, negsuc, is_negative, is_below, pos_part, Bool, true, false, not, ◌&&◌, ◌||◌, List, [],
  ◌∷◌, ◌++◌, Option, none, some, Text, ◌==◌, if◌then◌else◌, codes,
}
use webintel.Prelude.Result.{Result, ok, err}
use webintel.Py.Tables.{Python}
use webintel.Jobs.Models.{CrawlJobStatus, failed, status_Eq, Website, CrawlJob}
use webintel.Jobs.Database.{Services, State}
use webintel.Jobs.Errors.{
  RouteError, AppError, literal, app_error, uncaught_value_error, integrity_error, new_app_error,
}
use webintel.Jobs.Intake.{NormalizedTarget, normalize_crawl_target}
use webintel.Jobs.Repository.{
  mark_failed, reset_for_retry, create_job, get_by_id, list, count, get_by_domain, create_website,
}
pub mod Consistent
pub mod Create
pub mod Linked
pub mod Retry

-- The statuses of ERROR_RESPONSES.
abbrev pub error_responses : List ℕ
error_responses = 404 ∷ 409 ∷ 422 ∷ 503 ∷ []

abbrev pub queue_unavailable : RouteError
queue_unavailable = app_error (
    new_app_error "QUEUE_UNAVAILABLE" (literal "The crawl queue is temporarily unavailable") 503
      none)

abbrev pub not_found : RouteError
not_found = app_error (new_app_error "NOT_FOUND" (literal "Crawl job not found") 404 none)

abbrev pub invalid_job_state : RouteError
invalid_job_state =
    app_error
      (new_app_error "INVALID_JOB_STATE" (literal "Only failed crawl jobs can be retried") 409 none)

-- CrawlJobCreated
pub record CrawlJobCreated : Type 0 where
  pub job_id : ℕ
  pub website_id : ℕ
  pub status : CrawlJobStatus

-- CrawlJobList
pub record CrawlJobList : Type 0 where
  pub items : List CrawlJob
  pub total : ℕ
  pub offset : ℕ
  pub limit : ℕ

-- _created_response
abbrev pub created_response : CrawlJob → CrawlJobCreated
created_response job = record { job_id = job.id; website_id = job.website_id; status = job.status }

module _ (services : Services) where
  abbrev pub Answer : Type 0 → Type 0
  Answer A = Result RouteError A × State services

  abbrev failure_message : Text → Text
  failure_message name = codes "Queue unavailable: " ++ name

  -- The handler of the exception of `enqueue_crawl_job`.
  abbrev after_send :
      State services → CrawlJob → Result Text (Unit {0}) × services.Queue → Answer CrawlJob
  after_send s job (ok _, queue) = (ok job, record s { queue = queue })
  after_send s job (err name, queue) = (
    err queue_unavailable,
    record {
      db = services.update_job s.db (mark_failed (services.now s.db) job (failure_message name));
      queue = queue;
    },
  )

  -- _dispatch_or_mark_failed: the job that the caller goes on with
  unfoldable pub dispatch_or_mark_failed : State services → CrawlJob → Answer CrawlJob
  dispatch_or_mark_failed s job = after_send s job (services.send_task s.queue job.id)

  abbrev pub respond : Answer CrawlJob → Answer CrawlJobCreated
  respond (ok job, s) = (ok (created_response job), s)
  respond (err e, s) = (err e, s)

  abbrev found_website :
      Python → services.Db → NormalizedTarget → Option Website → Option (Website × services.Db)
  found_website py db target (some website) = some (website, db)
  found_website py db target none = create_website services py db target.domain target.root_url

  abbrev job_of :
      NormalizedTarget → ℕ → Option (Website × services.Db) → Option (CrawlJob × services.Db)
  job_of target max_pages none = none
  job_of target max_pages (some (website, db)) =
      create_job services db website.id target.start_url max_pages

  -- The transaction of `create_crawl_job`; `none` is an IntegrityError, and is rolled back.
  pub create_rows : Python → services.Db → NormalizedTarget → ℕ → Option (CrawlJob × services.Db)
  create_rows py db target max_pages =
      job_of target max_pages
        (found_website py db target (get_by_domain services py db target.domain))

  abbrev dispatch_created :
      State services → Option (CrawlJob × services.Db) → Answer CrawlJobCreated
  dispatch_created s none = (err integrity_error, s)
  dispatch_created s (some (job, db)) = respond (dispatch_or_mark_failed (record s { db = db }) job)

  abbrev create_for :
      Python → State services → ℕ → Result RouteError NormalizedTarget → Answer CrawlJobCreated
  create_for py s max_pages (err e) = (err e, s)
  create_for py s max_pages (ok target) = dispatch_created s (create_rows py s.db target max_pages)

  -- create_crawl_job
  unfoldable pub create_crawl_job : Python → State services → Text → ℕ → Answer CrawlJobCreated
  create_crawl_job py s url max_pages = create_for py s max_pages (normalize_crawl_target py url)

  -- get_crawl_job
  abbrev read_job : Option CrawlJob → Result RouteError CrawlJob
  read_job none = err not_found
  read_job (some job) = ok job

  unfoldable pub get_crawl_job : State services → ℕ → Result RouteError CrawlJob
  get_crawl_job s job_id = read_job (get_by_id services s.db job_id)

  -- The transaction of `retry_crawl_job`: the ValueError of `reset_for_retry` is uncaught.
  abbrev reset_row : State services → CrawlJob → Option CrawlJob → Answer CrawlJob
  reset_row s job none = (err uncaught_value_error, s)
  reset_row s job (some job') = (ok job', record s { db = services.update_job s.db job' })

  abbrev checked_reset : State services → Option CrawlJob → Answer CrawlJob
  checked_reset s none = (err not_found, s)
  checked_reset s (some job) =
      if not (job.status == failed)
      then (err invalid_job_state, s)
      else reset_row s job (reset_for_retry job)

  abbrev dispatch_retried : Answer CrawlJob → Answer CrawlJobCreated
  dispatch_retried (err e, s) = (err e, s)
  dispatch_retried (ok job, s) = respond (dispatch_or_mark_failed s job)

  -- retry_crawl_job
  unfoldable pub retry_crawl_job : State services → ℕ → Answer CrawlJobCreated
  retry_crawl_job s job_id = dispatch_retried (checked_reset s (get_by_id services s.db job_id))

  -- list_crawl_jobs: FastAPI refuses an offset below 0 and a limit outside 1..100 (`none`).
  unfoldable pub list_crawl_jobs :
      State services → Option ℕ → Option CrawlJobStatus → ℤ → ℤ → Option CrawlJobList
  list_crawl_jobs s website_id status offset limit =
      if is_negative offset || is_below limit 1 || not (is_below limit 101)
      then none
      else some (record {
        items = list services s.db website_id status (pos_part offset) (pos_part limit);
        total = count services s.db website_id status;
        offset = pos_part offset;
        limit = pos_part limit;
      })
