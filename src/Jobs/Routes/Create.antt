-- ===== src/Jobs/Routes/Create.antt =====
-- What `create_crawl_job` leaves behind.
use webintel.Prelude.{
  ℕ, ◌≡◌, refl, ap, ◌∙◌, ◌⊎◌, inl, inr, true, ◌∷◌, Option, none, some, Text, is_some, ==_refl,
  nat_Eq, text_Eq, Option-cases,
}
use webintel.Prelude.Result.{Result, ok, err}
use webintel.Py.Tables.{Python}
use webintel.Jobs.Models.{new_website, queued, failed, CrawlJob, Website}
use webintel.Jobs.Database.{Services, IsRelational, State, find}
use webintel.Jobs.Errors.{RouteError, integrity_error}
use webintel.Jobs.Intake.{NormalizedTarget, normalize_crawl_target}
use webintel.Jobs.Repository.{
  new_job, mark_failed, get_by_id, create_job, get_by_domain, create_website,
}
use webintel.Jobs.Repository.Rows.{get_by_id-update_self, get_by_id-insert_self}
use webintel.Jobs.Routes.{
  queue_unavailable, CrawlJobCreated, created_response, Answer, respond, after_send,
  failure_message, dispatch_or_mark_failed, found_website, job_of, create_rows, dispatch_created,
  create_for, create_crawl_job,
}

module _ (services : Services) (py : Python) (db : services.Db) (target : NormalizedTarget)
    (max_pages : ℕ) where
  -- A new queued job with this start and limit, of the website that has the domain of the target,
  -- and no other change of the jobs.
  pub record IsCreated (job : CrawlJob) (db' : services.Db) : Type 0 where
    pub added : services.jobs db' ≡ job ∷ services.jobs db
    pub found : get_by_id services db' job.id ≡ some job
    pub is_queued : job.status ≡ queued
    pub start : job.start_url ≡ target.start_url
    pub limit : job.max_pages ≡ max_pages
    pub website : Website
    pub of_domain : get_by_domain services py db' target.domain ≡ some website
    pub of_website : job.website_id ≡ website.id

  -- The website of the transaction is the one that its domain finds, and the jobs are untouched.
  abbrev IsPlaced : Option (Website × services.Db) → Type 0
  IsPlaced none = Unit
  IsPlaced (some (website, db')) =
      (services.jobs db' ≡ services.jobs db)
      × (get_by_domain services py db' target.domain ≡ some website)

  create_website-IsPlaced :
      IsRelational services → IsPlaced (create_website services py db target.domain target.root_url)
  unfolding create_website get_by_domain find
  create_website-IsPlaced laws =
      let website =
        new_website (services.uuid db) (services.now db) (py.lower target.domain) target.root_url in
      elim (Option-cases (services.insert_website db website)) [
        | inl e ↦ rw (IsPlaced, e) tt
        | inr (db', e) ↦
            rw (IsPlaced, e)
              (
                laws.jobs-insert_website db db' website e,
                rw
                    (
                      laws.websites-insert_website db db' website e,
                      ==_refl {A = Text} (py.lower target.domain),
                    )
                    refl,
              )
      ]

  found_website-IsPlaced :
      IsRelational services
      → (found : Option Website) → get_by_domain services py db target.domain ≡ found
      → IsPlaced (found_website services py db target found)
  found_website-IsPlaced laws (some website) h = (refl, h)
  found_website-IsPlaced laws none h = create_website-IsPlaced laws

  abbrev AreCreated : Option (CrawlJob × services.Db) → Type 0
  AreCreated none = Unit
  AreCreated (some (job, db')) = IsCreated job db'

  job_of-AreCreated :
      IsRelational services
      → (placed : Option (Website × services.Db)) → IsPlaced placed
      → AreCreated (job_of services target max_pages placed)
  unfolding create_job get_by_domain
  job_of-AreCreated laws none h = tt
  job_of-AreCreated laws (some (website, db₁)) (jobs, of_domain) =
      let job =
        new_job (services.uuid db₁) (services.now db₁) website.id target.start_url max_pages in
      elim (Option-cases (services.insert_job db₁ job)) [
        | inl e ↦ rw (AreCreated, e) tt
        | inr (db₂, e) ↦
            rw (AreCreated, e)
              (record {
                added = laws.jobs-insert_job db₁ db₂ job e ∙ ap (λ rows. job ∷ rows) jobs;
                found = get_by_id-insert_self services laws db₁ db₂ job e;
                is_queued = refl;
                start = refl;
                limit = refl;
                website = website;
                of_domain = rw (laws.websites-insert_job db₁ db₂ job e) of_domain;
                of_website = refl;
              })
      ]

  create_rows-AreCreated :
      IsRelational services → AreCreated (create_rows services py db target max_pages)
  unfolding create_rows
  create_rows-AreCreated laws =
      job_of-AreCreated laws _
        (found_website-IsPlaced laws (get_by_domain services py db target.domain) refl)

-- The answers to a new job: what the response says, what the tables hold.
module _ (services : Services) (py : Python) (s : State services) (max_pages : ℕ) where
  abbrev pub CreateOutcome :
      Result RouteError NormalizedTarget → Answer services CrawlJobCreated → Type 0
  CreateOutcome (err e) (r, s') = (r ≡ err e) × (s' ≡ s)
  CreateOutcome (ok target) (ok r, s') =
      (job : CrawlJob) × IsCreated services py s.db target max_pages job s'.db
      × (r ≡ created_response job)
  CreateOutcome (ok target) (err e, s') =
      ((e ≡ integrity_error) × (s' ≡ s))
      ⊎ ((e ≡ queue_unavailable)
          × ((job row : CrawlJob) × (db : services.Db) × IsCreated services py s.db target max_pages
                job db
              × (get_by_id services s'.db job.id ≡ some row)
              × (row.status ≡ failed)
              × (is_some row.error_message ≡ true)))

  after_send-outcome :
      IsRelational services
      → (target : NormalizedTarget) (job : CrawlJob) (db : services.Db)
      → IsCreated services py s.db target max_pages job db
      → (sent : Result Text (Unit {0}) × services.Queue)
      → CreateOutcome
          (ok target)
          (respond services (after_send services (record s { db = db }) job sent))
  unfolding mark_failed
  after_send-outcome laws target job db created (ok u, queue) = (job, created, refl)
  after_send-outcome laws target job db created (err name, queue) = inr (
    refl,
    (
      job,
      mark_failed (services.now db) job (failure_message services name),
      db,
      created,
      get_by_id-update_self services laws db job.id job _ refl created.found,
      refl,
      refl,
    ),
  )

  dispatch_created-outcome :
      IsRelational services
      → (target : NormalizedTarget) (rows : Option (CrawlJob × services.Db))
      → AreCreated services py s.db target max_pages rows
      → CreateOutcome (ok target) (dispatch_created services s rows)
  unfolding dispatch_or_mark_failed
  dispatch_created-outcome laws target none h = inl (refl, refl)
  dispatch_created-outcome laws target (some (job, db)) h =
      after_send-outcome laws target job db h (services.send_task s.queue job.id)

  create_for-outcome :
      IsRelational services
      → (target : Result RouteError NormalizedTarget)
      → CreateOutcome target (create_for services py s max_pages target)
  create_for-outcome laws (err e) = (refl, refl)
  create_for-outcome laws (ok target) =
      dispatch_created-outcome laws target (create_rows services py s.db target max_pages)
        (create_rows-AreCreated services py s.db target max_pages laws)

-- A URL that intake refuses is answered with its error, and nothing changes. Otherwise one queued job
-- is added, with the start of the target and the limit, for the website that the domain of the target
-- finds afterwards, and the response describes it; or there was a conflict and nothing changes; or
-- the queue is unavailable, the answer is 503, and the row of the added job is that of a failed job
-- with an error message.
pub create_crawl_job_outcome :
    (services : Services) (py : Python) (s : State services) (url : Text) (max_pages : ℕ)
    → IsRelational services
    → CreateOutcome services py s max_pages
        (normalize_crawl_target py url)
        (create_crawl_job services py s url max_pages)
unfolding create_crawl_job
create_crawl_job_outcome services py s url max_pages laws =
    create_for-outcome services py s max_pages laws (normalize_crawl_target py url)
