-- ===== src/Jobs/Repository/Rows.antt =====
-- Which row a read finds after a write.
use webintel.Prelude.{
  ℕ, ◌≡◌, ◌≢◌, refl, ap, ◌∙◌, List, [], ◌∷◌, some, nat_Eq, Bool, All, ◌==◌, Bool-cases, inl, inr,
  subst, text_Eq, arith, nat_eq, nat_eq_iff,
}
use webintel.Jobs.Models.{CrawlJob}
use webintel.Jobs.Database.{Services, IsRelational, find, replace_job}
use webintel.Jobs.Repository.{get_by_id}

find-id :
    (i : ℕ) (rows : List CrawlJob) (job : CrawlJob)
    → find (λ row. nat_eq row.id i) rows ≡ some job
    → job.id ≡ i
unfolding find
find-id i [] job h = ground (arith, h)
find-id i (row ∷ rows) job h = ground (arith, h, find-id i rows job)

find-replace_self :
    (i : ℕ) (rows : List CrawlJob) (old job : CrawlJob)
    → job.id ≡ i
    → find (λ row. nat_eq row.id i) rows ≡ some old
    → find (λ row. nat_eq row.id i) (replace_job job rows) ≡ some job
unfolding find
find-replace_self i [] old job e h = ground (arith, h)
find-replace_self i (row ∷ rows) old job e h =
    ground (arith, h, e, find-replace_self i rows old job)

find-replace_ne :
    (i : ℕ) (rows : List CrawlJob) (job : CrawlJob)
    → job.id ≢ i
    → find (λ row. nat_eq row.id i) (replace_job job rows) ≡ find (λ row. nat_eq row.id i) rows
unfolding find
find-replace_ne i [] job ne = refl
find-replace_ne i (row ∷ rows) job ne = ground (arith, ne, find-replace_ne i rows job)

-- What holds of all rows holds of the one that is found, and of all rows after an update with one of
-- which it holds.
pub find-All {ℓ} :
    {A : Type ℓ} (P : A → Type 0) (p : A → Bool) (rows : List A) {a : A}
    → All P rows
    → find p rows ≡ some a
    → P a
unfolding find
find-All P p [] h e = absurd (ground (arith, e))
find-All P p (row ∷ rows) (r, h) e = elim (Bool-cases (p row)) [
  | inl h₁ ↦ subst P (cc (rw h₁ at e)) r
  | inr h₂ ↦ find-All P p rows h (rw h₂ at e)
]

pub replace_job-All :
    (P : CrawlJob → Type 0) (job : CrawlJob) (rows : List CrawlJob)
    → P job
    → All P rows
    → All P (replace_job job rows)
replace_job-All P job [] h k = tt
replace_job-All P job (row ∷ rows) h (r, k) = elim (Bool-cases (row.id == job.id)) [
  | inl same ↦ rw same (h, replace_job-All P job rows h k)
  | inr ne ↦ rw ne (r, replace_job-All P job rows h k)
]

module _ (services : Services) (laws : IsRelational services) where
  pub get_by_id-id :
      (db : services.Db) (i : ℕ) (job : CrawlJob) → get_by_id services db i ≡ some job → job.id ≡ i
  unfolding get_by_id
  get_by_id-id db i job h = find-id i (services.jobs db) job h

  pub get_by_id-update_self :
      (db : services.Db) (i : ℕ) (old job : CrawlJob)
      → job.id ≡ i
      → get_by_id services db i ≡ some old
      → get_by_id services (services.update_job db job) i ≡ some job
  unfolding get_by_id
  get_by_id-update_self db i old job e h =
      ap (find (λ row. nat_eq row.id i)) (laws.jobs-update_job db job)
      ∙ find-replace_self i (services.jobs db) old job e h

  pub get_by_id-update_ne :
      (db : services.Db) (i : ℕ) (job : CrawlJob)
      → job.id ≢ i
      → get_by_id services (services.update_job db job) i ≡ get_by_id services db i
  unfolding get_by_id
  get_by_id-update_ne db i job ne =
      ap (find (λ row. nat_eq row.id i)) (laws.jobs-update_job db job)
      ∙ find-replace_ne i (services.jobs db) job ne

  pub get_by_id-insert_self :
      (db db' : services.Db) (job : CrawlJob)
      → services.insert_job db job ≡ some db'
      → get_by_id services db' job.id ≡ some job
  unfolding get_by_id find
  get_by_id-insert_self db db' job h =
      rw (laws.jobs-insert_job db db' job h) (ground (arith, nat_eq_iff job.id job.id))
