-- ===== src/Samples/JobsTests.antt =====
-- The theorems on crawl jobs at sample tables.
use webintel.Prelude.{
  ℕ, ◌≡◌, refl, List, [], ◌∷◌, none, some, Text, codes, nat_Eq, arith, length, ◌+◌,
}
use webintel.Prelude.Result.{Result, ok, err}
use webintel.Jobs.Intake.{normalize_crawl_target}
use webintel.Jobs.Routes.{create_crawl_job}
use webintel.Jobs.Routes.Create.{CreateOutcome, create_crawl_job_outcome}
use webintel.Samples.{sample_python}
use webintel.Jobs.Models.{new_website, CrawlJob, Website, failed, queued, running}
use webintel.Jobs.Database.{Services, IsRelational, State, replace_job}
use webintel.Jobs.Repository.{get_by_id}
use webintel.Jobs.Repository.{mark_running, reset_for_retry}
use webintel.Jobs.Repository.Lifecycle.{
  IsConsistent, SameOrder, Step, Reach, here, next, retry, start, Reach-IsConsistent,
}
use webintel.Jobs.Routes.Consistent.{AreConsistent, routes-AreConsistent}
use webintel.Jobs.Routes.Linked.{IsLinked, routes-AreLinked}
use webintel.Jobs.Routes.{retry_crawl_job}
use webintel.Jobs.Routes.Retry.{retry_crawl_job_others}
use webintel.Samples.{start_url}

-- The tables as lists; a queue that is down once it holds two messages.
record Tables : Type 0 where
  job_rows : List CrawlJob
  website_rows : List Website

abbrev send_once : List ℕ → ℕ → Result Text (Unit {0}) × List ℕ
send_once [] job_id = (ok tt, job_id ∷ [])
send_once (q ∷ queue) job_id = (err (codes "OperationalError"), q ∷ queue)

abbrev sample_services : Services
sample_services = record {
  Db = Tables;
  Queue = List ℕ;
  jobs = λ db. db.job_rows;
  websites = λ db. db.website_rows;
  newest_jobs = λ offset limit rows. rows;
  newest_websites = λ offset limit rows. rows;
  insert_job = λ db job. some (record db { job_rows = job ∷ db.job_rows });
  insert_website = λ db website. some (record db { website_rows = website ∷ db.website_rows });
  update_job = λ db job. record db { job_rows = replace_job job db.job_rows };
  uuid = λ db. length db.job_rows + length db.website_rows;
  now = λ db. 0;
  send_task = send_once;
}

sample_services-IsRelational : IsRelational sample_services
sample_services-IsRelational = record {
  jobs-insert_job = λ db db' job h. ground (arith, h);
  websites-insert_job = λ db db' job h. ground (arith, h);
  websites-insert_website = λ db db' website h. ground (arith, h);
  jobs-insert_website = λ db db' website h. ground (arith, h);
  jobs-update_job = λ db job. refl;
  websites-update_job = λ db job. refl;
}

abbrev failed_job : CrawlJob
failed_job = record {
  id = 7;
  website_id = 1;
  start_url = start_url;
  status = failed;
  max_pages = 20;
  pages_crawled = 3;
  pages_failed = 2;
  error_message = some (codes "timeout");
  started_at = some 1;
  finished_at = some 2;
  created_at = 0;
}

abbrev sample_db : Tables
sample_db = record { job_rows = failed_job ∷ record failed_job { id = 8 } ∷ []; website_rows = [] }

abbrev busy : State sample_services
busy = record { db = sample_db; queue = 5 ∷ [] }

retry_crawl_job_others_example :
    get_by_id sample_services (retry_crawl_job sample_services busy 7).1.db 8
    ≡ get_by_id sample_services sample_db 8
retry_crawl_job_others_example =
    retry_crawl_job_others sample_services busy 7 8 sample_services-IsRelational (ground arith)

create_crawl_job_outcome_example :
    CreateOutcome sample_services sample_python busy 20
      (normalize_crawl_target sample_python start_url)
      (create_crawl_job sample_services sample_python busy start_url 20)
create_crawl_job_outcome_example =
    create_crawl_job_outcome sample_services sample_python busy start_url 20
      sample_services-IsRelational

-- A failed job is reset and runs again.
abbrev retried_job : CrawlJob
retried_job = record failed_job {
  status = queued;
  pages_crawled = 0;
  pages_failed = 0;
  error_message = none;
  started_at = none;
  finished_at = none;
}

abbrev running_job : CrawlJob
running_job = record retried_job { status = running; started_at = some 5 }

abbrev runs_again : Reach failed_job running_job
unfolding reset_for_retry mark_running
runs_again =
    let first : Step failed_job retried_job = retry refl in
    let second : Step retried_job running_job = start 5 refl in next (next here first) second

failed_job-IsConsistent : IsConsistent failed_job
failed_job-IsConsistent = ground arith

Reach-IsConsistent_example : IsConsistent running_job × SameOrder failed_job running_job
Reach-IsConsistent_example = Reach-IsConsistent failed_job-IsConsistent runs_again

routes-AreConsistent_example :
    ((url : Text) (max_pages : ℕ)
      → AreConsistent sample_services
          (create_crawl_job sample_services sample_python busy url max_pages).1.db)
    × ((job_id : ℕ)
        → AreConsistent sample_services (retry_crawl_job sample_services busy job_id).1.db)
routes-AreConsistent_example =
    routes-AreConsistent sample_services sample_services-IsRelational sample_python busy
      (failed_job-IsConsistent, (ground arith, tt))

abbrev sample_website : Website
sample_website = new_website 1 0 (codes "example.com") (codes "http://example.com")

abbrev linked : State sample_services
linked = record { db = record sample_db { website_rows = sample_website ∷ [] }; queue = [] }

routes-AreLinked_example :
    ((url : Text) (max_pages : ℕ)
      → IsLinked sample_services
          (create_crawl_job sample_services sample_python linked url max_pages).1.db)
    × ((job_id : ℕ) → IsLinked sample_services (retry_crawl_job sample_services linked job_id).1.db)
routes-AreLinked_example =
    routes-AreLinked sample_services sample_services-IsRelational sample_python linked
      (record { domains = (refl, tt); owners = (refl, (refl, tt)) })
