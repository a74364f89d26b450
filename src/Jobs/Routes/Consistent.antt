-- ===== src/Jobs/Routes/Consistent.antt =====
-- The routes keep every row of the table of jobs consistent.
use webintel.Prelude.{
  ℕ, ◌≡◌, refl, sym, subst, Option, none, some, Text, All, nat_Eq, Bool-cases, Option-cases, inl,
  inr,
}
use webintel.Prelude.Result.{Result, ok, err}
use webintel.Py.Tables.{Python}
use webintel.Jobs.Models.{new_website, CrawlJob, failed, status_eq, Website}
use webintel.Jobs.Database.{Services, IsRelational, State}
use webintel.Jobs.Errors.{RouteError}
use webintel.Jobs.Intake.{NormalizedTarget, normalize_crawl_target}
use webintel.Jobs.Repository.{
  new_job, reset_for_retry, create_job, create_website, get_by_id, get_by_domain,
}
use webintel.Jobs.Repository.Rows.{replace_job-All}
use webintel.Jobs.Repository.Lifecycle.{
  IsConsistent, retry, new_job-IsConsistent, mark_failed-IsConsistent, Step-IsConsistent,
}
use webintel.Jobs.Routes.{
  respond, after_send, dispatch_or_mark_failed, found_website, job_of, create_rows,
  dispatch_created, create_for, create_crawl_job, reset_row, checked_reset, dispatch_retried,
  retry_crawl_job,
}

abbrev pub AreConsistent : (services : Services) → services.Db → Type 0
AreConsistent services db = All IsConsistent (services.jobs db)

module _ (services : Services) (laws : IsRelational services) where
  update-AreConsistent :
      (db : services.Db) (job : CrawlJob)
      → IsConsistent job
      → AreConsistent services db
      → AreConsistent services (services.update_job db job)
  update-AreConsistent db job h k =
      subst (All IsConsistent) (sym (laws.jobs-update_job db job))
        (replace_job-All IsConsistent job (services.jobs db) h k)

  after_send-AreConsistent :
      (s : State services) (job : CrawlJob) (sent : Result Text (Unit {0}) × services.Queue)
      → AreConsistent services s.db
      → AreConsistent services (respond services (after_send services s job sent)).1.db
  after_send-AreConsistent s job (ok u, queue) h = h
  after_send-AreConsistent s job (err name, queue) h =
      update-AreConsistent s.db _ (mark_failed-IsConsistent (services.now s.db) job _) h

  reset_row-AreConsistent :
      (s : State services) (job : CrawlJob) (fresh : Option CrawlJob)
      → reset_for_retry job ≡ fresh
      → AreConsistent services s.db
      → AreConsistent services (dispatch_retried services (reset_row services s job fresh)).1.db
  unfolding dispatch_or_mark_failed
  reset_row-AreConsistent s job none e h = h
  reset_row-AreConsistent s job (some job') e h =
      after_send-AreConsistent (record s { db = services.update_job s.db job' }) job'
        (services.send_task s.queue job'.id)
        (update-AreConsistent s.db job' (Step-IsConsistent (retry e)) h)

  checked_reset-AreConsistent :
      (s : State services) (found : Option CrawlJob)
      → AreConsistent services s.db
      → AreConsistent services (dispatch_retried services (checked_reset services s found)).1.db
  checked_reset-AreConsistent s none h = h
  checked_reset-AreConsistent s (some job) h = elim (Bool-cases (status_eq job.status failed)) [
    | inr other ↦ rw other h
    | inl failure ↦ rw failure (reset_row-AreConsistent s job (reset_for_retry job) refl h)
  ]

  abbrev OfWebsite : services.Db → Option (Website × services.Db) → Type 0
  OfWebsite db none = Unit
  OfWebsite db (some (website, db')) = services.jobs db' ≡ services.jobs db

  found_website-jobs :
      (py : Python) (db : services.Db) (target : NormalizedTarget) (found : Option Website)
      → OfWebsite db (found_website services py db target found)
  unfolding create_website
  found_website-jobs py db target (some website) = refl
  found_website-jobs py db target none =
      let website =
        new_website (services.uuid db) (services.now db) (py.lower target.domain) target.root_url in
      elim (Option-cases (services.insert_website db website)) [
        | inl refused ↦ rw (OfWebsite, refused) tt
        | inr (db', added) ↦ rw (OfWebsite, added) (laws.jobs-insert_website db db' website added)
      ]

  abbrev OfJob : Option (CrawlJob × services.Db) → Type 0
  OfJob none = Unit
  OfJob (some (job, db')) = AreConsistent services db'

  job_of-AreConsistent :
      (db : services.Db) (target : NormalizedTarget) (max_pages : ℕ)
      (placed : Option (Website × services.Db))
      → AreConsistent services db
      → OfWebsite db placed
      → OfJob (job_of services target max_pages placed)
  unfolding create_job
  job_of-AreConsistent db target max_pages none h k = tt
  job_of-AreConsistent db target max_pages (some (website, db₁)) h k =
      let job =
        new_job (services.uuid db₁) (services.now db₁) website.id target.start_url max_pages in
      elim (Option-cases (services.insert_job db₁ job)) [
        | inl refused ↦ rw (OfJob, refused) tt
        | inr (db₂, added) ↦
            rw (OfJob, added, laws.jobs-insert_job db₁ db₂ job added, k)
              (
                new_job-IsConsistent (services.uuid db₁) (services.now db₁) website.id
                    target.start_url max_pages,
                h,
              )
      ]

  dispatch_created-AreConsistent :
      (s : State services) (rows : Option (CrawlJob × services.Db))
      → AreConsistent services s.db
      → OfJob rows
      → AreConsistent services (dispatch_created services s rows).1.db
  unfolding dispatch_or_mark_failed
  dispatch_created-AreConsistent s none h k = h
  dispatch_created-AreConsistent s (some (job, db)) h k =
      after_send-AreConsistent (record s { db = db }) job (services.send_task s.queue job.id) k

  create_for-AreConsistent :
      (py : Python) (s : State services) (max_pages : ℕ)
      (target : Result RouteError NormalizedTarget)
      → AreConsistent services s.db
      → AreConsistent services (create_for services py s max_pages target).1.db
  unfolding create_rows
  create_for-AreConsistent py s max_pages (err e) h = h
  create_for-AreConsistent py s max_pages (ok target) h = dispatch_created-AreConsistent s _ h (
      job_of-AreConsistent s.db target max_pages _ h
        (found_website-jobs py s.db target (get_by_domain services py s.db target.domain)))

-- If every job of the table is consistent, then so it is after `create_crawl_job` and after
-- `retry_crawl_job`, whatever they answer and whether the queue takes the job or not.
pub routes-AreConsistent :
    (services : Services) (laws : IsRelational services) (py : Python) (s : State services)
    → AreConsistent services s.db
    → ((url : Text) (max_pages : ℕ)
        → AreConsistent services (create_crawl_job services py s url max_pages).1.db)
      × ((job_id : ℕ) → AreConsistent services (retry_crawl_job services s job_id).1.db)
unfolding create_crawl_job retry_crawl_job
routes-AreConsistent services laws py s h = (
  λ url max_pages.
      create_for-AreConsistent services laws py s max_pages (normalize_crawl_target py url) h,
  λ job_id. checked_reset-AreConsistent services laws s (get_by_id services s.db job_id) h,
)
