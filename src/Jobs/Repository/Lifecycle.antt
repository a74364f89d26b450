-- ===== src/Jobs/Repository/Lifecycle.antt =====
-- The life of a crawl job: what the operations of the repository make of it, in any order.
use webintel.Prelude.{ℕ, ◌≡◌, ◌≢◌, refl, some, none, Text, true, is_some, arith}
use webintel.Jobs.Models.{queued, running, completed, failed, cancelled, CrawlJob}
use webintel.Jobs.Repository.{new_job, mark_running, mark_completed, mark_failed, reset_for_retry}

-- One operation of the repository on a job.
pub data Step (job job' : CrawlJob) : Type 0 where
  start : (now : ℕ) → job' ≡ mark_running now job → Step job job'
  complete :
      (now pages_crawled pages_failed : ℕ)
      → job' ≡ mark_completed now job pages_crawled pages_failed
      → Step job job'
  fail : (now : ℕ) (message : Text) → job' ≡ mark_failed now job message → Step job job'
  retry : reset_for_retry job ≡ some job' → Step job job'

pub data Reach (job : CrawlJob) : CrawlJob → Type 0 where
  here : Reach job job
  next : {job' job'' : CrawlJob} → Reach job job' → Step job' job'' → Reach job job''

-- What the columns of a job say of its status: a queued job shows no trace of a run, a running one
-- has begun, and one that failed or is complete has ended, a failed one with a message.
pub record IsConsistent (job : CrawlJob) : Type 0 where
  pub not_cancelled : job.status ≢ cancelled
  pub queued_clean :
      job.status ≡ queued
      → (job.pages_crawled ≡ 0)
        × (job.pages_failed ≡ 0)
        × (job.error_message ≡ none)
        × (job.started_at ≡ none)
        × (job.finished_at ≡ none)
  pub running_begun :
      job.status ≡ running
      → (is_some job.started_at ≡ true) × (job.finished_at ≡ none) × (job.error_message ≡ none)
  pub completed_ended : job.status ≡ completed → is_some job.finished_at ≡ true
  pub failed_ended :
      job.status ≡ failed → (is_some job.finished_at ≡ true) × (is_some job.error_message ≡ true)

-- What no operation changes.
abbrev pub SameOrder : CrawlJob → CrawlJob → Type 0
SameOrder job job' =
    (job'.id ≡ job.id)
    × (job'.website_id ≡ job.website_id)
    × (job'.start_url ≡ job.start_url)
    × (job'.max_pages ≡ job.max_pages)
    × (job'.created_at ≡ job.created_at)

pub new_job-IsConsistent :
    (id created_at website_id : ℕ) (start_url : Text) (max_pages : ℕ)
    → IsConsistent (new_job id created_at website_id start_url max_pages)
new_job-IsConsistent id created_at website_id start_url max_pages = ground arith

pub mark_failed-IsConsistent :
    (now : ℕ) (job : CrawlJob) (message : Text) → IsConsistent (mark_failed now job message)
unfolding mark_failed
mark_failed-IsConsistent now job message = ground arith

-- Whatever the job was like, it is consistent after an operation.
pub Step-IsConsistent : {job job' : CrawlJob} → Step job job' → IsConsistent job'
unfolding mark_running mark_completed reset_for_retry
Step-IsConsistent (start now e) = ground arith
Step-IsConsistent (complete now crawled lost e) = ground arith
Step-IsConsistent {job} {job'} (fail now message e) =
    rw e (mark_failed-IsConsistent now job message)
Step-IsConsistent (retry e) = ground arith

pub Step-SameOrder : {job job' : CrawlJob} → Step job job' → SameOrder job job'
unfolding mark_running mark_completed mark_failed reset_for_retry
Step-SameOrder (start now e) = ground arith
Step-SameOrder (complete now crawled lost e) = ground arith
Step-SameOrder (fail now message e) = ground arith
Step-SameOrder (retry e) = ground arith

-- Any operations in any order leave a consistent job consistent, and what was ordered as it was.
pub Reach-IsConsistent :
    {job job' : CrawlJob}
    → IsConsistent job
    → Reach job job'
    → IsConsistent job' × SameOrder job job'
Reach-IsConsistent h here = (h, (refl, refl, refl, refl, refl))
Reach-IsConsistent h (next r st) =
    let (_, same) = Reach-IsConsistent h r in
    (Step-IsConsistent st, ground (arith, same, Step-SameOrder st))
