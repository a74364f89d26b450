-- ===== src/Jobs/Routes/Linked.antt =====
-- The routes keep the tables linked: a domain has one website, and each job has its website.
use webintel.Prelude.{
  ℕ, ◌≡◌, refl, ap, sym, subst, ◌∙◌, Bool, true, false, List, [], ◌∷◌, Option, none, some, Text,
  All, any, ◌==◌, nat_Eq, text_Eq, Bool-cases, Option-cases, inl, inr, arith, ==_refl, nat_eq_iff,
}
use webintel.Prelude.Result.{Result, ok, err}
use webintel.Py.Tables.{Python}
use webintel.Jobs.Models.{new_website, CrawlJob, Website, failed, status_eq}
use webintel.Jobs.Database.{Services, IsRelational, State, find}
use webintel.Jobs.Errors.{RouteError}
use webintel.Jobs.Intake.{NormalizedTarget, normalize_crawl_target}
use webintel.Jobs.Repository.{
  new_job, mark_failed, reset_for_retry, create_job, create_website, get_by_id, get_by_domain,
}
use webintel.Jobs.Repository.Rows.{find-All, replace_job-All}
use webintel.Jobs.Repository.Lifecycle.{retry, Step-SameOrder}
use webintel.Jobs.Routes.{
  respond, after_send, dispatch_or_mark_failed, found_website, job_of, create_rows,
  dispatch_created, create_for, create_crawl_job, reset_row, checked_reset, dispatch_retried,
  retry_crawl_job,
}

abbrev pub has_domain : Text → Website → Bool
has_domain domain website = website.domain == domain

abbrev pub HasDistinctDomains : List Website → Type 0
HasDistinctDomains [] = Unit
HasDistinctDomains (website ∷ rows) =
    (any (has_domain website.domain) rows ≡ false) × HasDistinctDomains rows

abbrev has_id : ℕ → Website → Bool
has_id website_id website = website.id == website_id

-- The website of the job is among these.
abbrev pub IsOwned : List Website → CrawlJob → Type 0
IsOwned websites job = any (has_id job.website_id) websites ≡ true

find-any :
    (p : Website → Bool) (rows : List Website) {website : Website}
    → find p rows ≡ some website
    → any (has_id website.id) rows ≡ true
unfolding find
find-any p [] e = absurd (ground (arith, e))
find-any p (row ∷ rows) {website} e =
    ground (arith, e, find-any p rows {website = website}, nat_eq_iff row.id website.id)

find-none : (p : Website → Bool) (rows : List Website) → find p rows ≡ none → any p rows ≡ false
unfolding find
find-none p [] e = refl
find-none p (row ∷ rows) e = ground (arith, e, find-none p rows)

IsOwned-more :
    (website : Website) (websites : List Website) (jobs : List CrawlJob)
    → All (IsOwned websites) jobs
    → All (IsOwned (website ∷ websites)) jobs
IsOwned-more website websites [] h = tt
IsOwned-more website websites (job ∷ jobs) (o, h) =
    (ground (arith, o), IsOwned-more website websites jobs h)

module _ (services : Services) where
  pub record IsLinked (db : services.Db) : Type 0 where
    pub domains : HasDistinctDomains (services.websites db)
    pub owners : All (IsOwned (services.websites db)) (services.jobs db)

module _ (services : Services) (laws : IsRelational services) where
  update-IsLinked :
      (db : services.Db) (job : CrawlJob)
      → IsOwned (services.websites db) job
      → IsLinked services db
      → IsLinked services (services.update_job db job)
  update-IsLinked db job o h = record {
    domains = subst HasDistinctDomains (sym (laws.websites-update_job db job)) h.domains;
    owners =
        rw (laws.websites-update_job db job, laws.jobs-update_job db job)
          (replace_job-All (IsOwned (services.websites db)) job (services.jobs db) o h.owners);
  }

  after_send-IsLinked :
      (s : State services) (job : CrawlJob) (sent : Result Text (Unit {0}) × services.Queue)
      → IsOwned (services.websites s.db) job
      → IsLinked services s.db
      → IsLinked services (respond services (after_send services s job sent)).1.db
  unfolding mark_failed
  after_send-IsLinked s job (ok u, queue) o h = h
  after_send-IsLinked s job (err name, queue) o h = update-IsLinked s.db _ o h

  reset_row-IsLinked :
      (s : State services) (job : CrawlJob) (fresh : Option CrawlJob)
      → reset_for_retry job ≡ fresh
      → IsOwned (services.websites s.db) job
      → IsLinked services s.db
      → IsLinked services (dispatch_retried services (reset_row services s job fresh)).1.db
  unfolding dispatch_or_mark_failed
  reset_row-IsLinked s job none e o h = h
  reset_row-IsLinked s job (some job') e o h =
      let owned : IsOwned (services.websites s.db) job' =
        ap (λ i. any (has_id i) (services.websites s.db)) (Step-SameOrder (retry e)).1 ∙ o in
      after_send-IsLinked (record s { db = services.update_job s.db job' }) job'
        (services.send_task s.queue job'.id) (rw (laws.websites-update_job s.db job') owned)
        (update-IsLinked s.db job' owned h)

  checked_reset-IsLinked :
      (s : State services) (job_id : ℕ) (found : Option CrawlJob)
      → get_by_id services s.db job_id ≡ found
      → IsLinked services s.db
      → IsLinked services (dispatch_retried services (checked_reset services s found)).1.db
  unfolding get_by_id
  checked_reset-IsLinked s job_id none e h = h
  checked_reset-IsLinked s job_id (some job) e h = elim (Bool-cases (status_eq job.status failed)) [
    | inr other ↦ rw other h
    | inl failure ↦ rw failure (
        reset_row-IsLinked s job (reset_for_retry job) refl
          (find-All (IsOwned (services.websites s.db)) (λ row. row.id == job_id)
            (services.jobs s.db) h.owners e)
          h)
  ]

  -- The website of the transaction is in the table.
  abbrev IsSettled : Option (Website × services.Db) → Type 0
  IsSettled none = Unit
  IsSettled (some (website, db)) =
      IsLinked services db × (any (has_id website.id) (services.websites db) ≡ true)

  found_website-IsSettled :
      (py : Python) (db : services.Db) (target : NormalizedTarget) (found : Option Website)
      → get_by_domain services py db target.domain ≡ found
      → IsLinked services db
      → IsSettled (found_website services py db target found)
  unfolding get_by_domain create_website
  found_website-IsSettled py db target (some website) e h =
      (h, find-any (has_domain (py.lower target.domain)) (services.websites db) e)
  found_website-IsSettled py db target none e h =
      let website =
        new_website (services.uuid db) (services.now db) (py.lower target.domain) target.root_url in
      elim (Option-cases (services.insert_website db website)) [
        | inl refused ↦ rw (IsSettled, refused) tt
        | inr (db', added) ↦
            let rows = laws.websites-insert_website db db' website added in
            rw (IsSettled, added)
              (
                record {
                  domains =
                      subst HasDistinctDomains (sym rows)
                        (find-none (has_domain website.domain) (services.websites db) e, h.domains);
                  owners =
                      rw (rows, laws.jobs-insert_website db db' website added)
                        (IsOwned-more website (services.websites db) (services.jobs db) h.owners);
                },
                rw (rows, ==_refl {A = ℕ} website.id) refl,
              )
      ]

  abbrev OfJob : Option (CrawlJob × services.Db) → Type 0
  OfJob none = Unit
  OfJob (some (job, db)) = IsLinked services db × IsOwned (services.websites db) job

  job_of-IsLinked :
      (target : NormalizedTarget) (max_pages : ℕ) (placed : Option (Website × services.Db))
      → IsSettled placed
      → OfJob (job_of services target max_pages placed)
  unfolding create_job
  job_of-IsLinked target max_pages none h = tt
  job_of-IsLinked target max_pages (some (website, db₁)) (h, o) =
      let job =
        new_job (services.uuid db₁) (services.now db₁) website.id target.start_url max_pages in
      elim (Option-cases (services.insert_job db₁ job)) [
        | inl refused ↦ rw (OfJob, refused) tt
        | inr (db₂, added) ↦
            let rows = laws.websites-insert_job db₁ db₂ job added in
            rw (OfJob, added)
              (
                record {
                  domains = subst HasDistinctDomains (sym rows) h.domains;
                  owners = rw (rows, laws.jobs-insert_job db₁ db₂ job added) (o, h.owners);
                },
                rw rows o,
              )
      ]

  dispatch_created-IsLinked :
      (s : State services) (rows : Option (CrawlJob × services.Db))
      → IsLinked services s.db
      → OfJob rows
      → IsLinked services (dispatch_created services s rows).1.db
  unfolding dispatch_or_mark_failed
  dispatch_created-IsLinked s none h k = h
  dispatch_created-IsLinked s (some (job, db)) h (k, o) =
      after_send-IsLinked (record s { db = db }) job (services.send_task s.queue job.id) o k

  create_for-IsLinked :
      (py : Python) (s : State services) (max_pages : ℕ)
      (target : Result RouteError NormalizedTarget)
      → IsLinked services s.db
      → IsLinked services (create_for services py s max_pages target).1.db
  unfolding create_rows
  create_for-IsLinked py s max_pages (err e) h = h
  create_for-IsLinked py s max_pages (ok target) h = dispatch_created-IsLinked s _ h (
      job_of-IsLinked target max_pages _ (
        found_website-IsSettled py s.db target (get_by_domain services py s.db target.domain) refl
          h))

-- If no two websites have one domain and the website of each job is in its table, then so it is after
-- `create_crawl_job` and after `retry_crawl_job`, whatever they answer.
pub routes-AreLinked :
    (services : Services) (laws : IsRelational services) (py : Python) (s : State services)
    → IsLinked services s.db
    → ((url : Text) (max_pages : ℕ)
        → IsLinked services (create_crawl_job services py s url max_pages).1.db)
      × ((job_id : ℕ) → IsLinked services (retry_crawl_job services s job_id).1.db)
unfolding create_crawl_job retry_crawl_job
routes-AreLinked services laws py s h = (
  λ url max_pages.
      create_for-IsLinked services laws py s max_pages (normalize_crawl_target py url) h,
  λ job_id. checked_reset-IsLinked services laws s job_id (get_by_id services s.db job_id) refl h,
)
