-- ===== src/Jobs/Routes/Retry.antt =====
-- What `retry_crawl_job` does to the job and to the others.
use webintel.Prelude.{
  ℕ, ◌≡◌, ◌≢◌, refl, sym, ◌∙◌, ◌⊎◌, inl, inr, true, Option, none, some, Text, is_some, Bool-cases,
  arith,
}
use webintel.Prelude.Result.{Result, ok, err}
use webintel.Jobs.Models.{failed, status_Eq, status_eq, CrawlJob}
use webintel.Jobs.Database.{Services, IsRelational, State}
use webintel.Jobs.Repository.{new_job, mark_failed, reset_for_retry, get_by_id}
use webintel.Jobs.Repository.Rows.{get_by_id-id, get_by_id-update_ne}
use webintel.Jobs.Routes.{
  queue_unavailable, invalid_job_state, CrawlJobCreated, created_response, Answer, after_send,
  dispatch_or_mark_failed, dispatch_retried, checked_reset, retry_crawl_job, failure_message,
  respond, reset_row,
}

-- The job as it was when it was created.
abbrev pub renewed : CrawlJob → CrawlJob
renewed job = new_job job.id job.created_at job.website_id job.start_url job.max_pages

module _ (services : Services) (s : State services) (job : CrawlJob) where
  -- The answers to a retry of a job that exists.
  abbrev pub RetryOutcome : Answer services CrawlJobCreated → Type 0
  RetryOutcome (ok r, s') =
      (job.status ≡ failed)
      × (r ≡ created_response (renewed job))
      × (get_by_id services s'.db job.id ≡ some (renewed job))
  RetryOutcome (err e, s') =
      ((job.status ≢ failed) × (e ≡ invalid_job_state) × (s' ≡ s))
      ⊎ ((job.status ≡ failed)
          × (e ≡ queue_unavailable)
          × ((row : CrawlJob) × (get_by_id services s'.db job.id ≡ some row)
              × (row.status ≡ failed)
              × (is_some row.error_message ≡ true)))

  abbrev reset_state : State services
  reset_state = record s { db = services.update_job s.db (renewed job) }

module _ (services : Services) (laws : IsRelational services) (other : ℕ) where
  send-others :
      (s : State services) (job : CrawlJob) (sent : Result Text (Unit {0}) × services.Queue)
      → job.id ≢ other
      → get_by_id services (respond services (after_send services s job sent)).1.db other
        ≡ get_by_id services s.db other
  unfolding mark_failed
  send-others s job (ok u, queue) ne = refl
  send-others s job (err name, queue) ne =
      get_by_id-update_ne services laws s.db other
        (mark_failed (services.now s.db) job (failure_message services name)) ne

  reset-others :
      (s : State services) (job : CrawlJob) (fresh : Option CrawlJob)
      → ((job' : CrawlJob) → fresh ≡ some job' → job'.id ≢ other)
      → get_by_id services (dispatch_retried services (reset_row services s job fresh)).1.db other
        ≡ get_by_id services s.db other
  unfolding dispatch_or_mark_failed
  reset-others s job none ne = refl
  reset-others s job (some job') ne =
      send-others (record s { db = services.update_job s.db job' }) job'
        (services.send_task s.queue job'.id) (ne job' refl)
      ∙ get_by_id-update_ne services laws s.db other job' (ne job' refl)

  reset_for_retry-id : (job job' : CrawlJob) → reset_for_retry job ≡ some job' → job'.id ≡ job.id
  unfolding reset_for_retry
  reset_for_retry-id job job' h = elim (Bool-cases (status_eq job.status failed)) [
    | inl e ↦ ground (arith, e, h)
    | inr e ↦ ground (arith, e, h)
  ]

  checked-others :
      (s : State services) (found : Option CrawlJob)
      → ((job : CrawlJob) → found ≡ some job → job.id ≢ other)
      → get_by_id services (dispatch_retried services (checked_reset services s found)).1.db other
        ≡ get_by_id services s.db other
  checked-others s none ne = refl
  checked-others s (some job) ne = elim (Bool-cases (status_eq job.status failed)) [
    | inr e ↦ rw e refl
    | inl e ↦ rw e (
        reset-others s job (reset_for_retry job)
          (λ job' h k. ne job refl (sym (reset_for_retry-id job job' h) ∙ k)))
  ]

-- Whatever the answer to a retry, no other job's row changes.
pub retry_crawl_job_others :
    (services : Services) (s : State services) (job_id other : ℕ)
    → IsRelational services
    → other ≢ job_id
    → get_by_id services (retry_crawl_job services s job_id).1.db other
      ≡ get_by_id services s.db other
unfolding retry_crawl_job
retry_crawl_job_others services s job_id other laws ne =
    checked-others services laws other s (get_by_id services s.db job_id)
      (λ job h k. ne (sym k ∙ get_by_id-id services laws s.db job_id job h))
