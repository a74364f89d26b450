-- ===== src/Jobs/Database.antt =====
-- What the repositories use of SQLAlchemy and PostgreSQL, and the routes of Celery: a parameter of
-- the model, with the documented behaviour that the theorems rely on as its laws.
use webintel.Prelude.{
  ℕ, ◌≡◌, Bool, List, [], ◌∷◌, Option, none, some, Text, ◌==◌, nat_Eq, text_Eq, if◌then◌else◌,
}
use webintel.Prelude.Result.{Result}
use webintel.Jobs.Models.{Website, CrawlJob}

-- The first row that a test accepts, as `session.get` and `session.scalar` return it.
unfoldable pub find {ℓ} : {A : Type ℓ} → (A → Bool) → List A → Option A
find p [] = none
find p (a ∷ rows) = if p a then some a else find p rows

pub record Services : Type 1 where
  pub Db : Type 0
  pub Queue : Type 0
  -- The rows of the tables, the last one added first.
  pub jobs : Db → List CrawlJob
  pub websites : Db → List Website
  -- ORDER BY created_at DESC in a query with this offset and limit; the order of equal times is up
  -- to the database, and may differ between two of these queries.
  pub newest_jobs : ℕ → ℕ → List CrawlJob → List CrawlJob
  pub newest_websites : ℕ → ℕ → List Website → List Website
  -- A new object is flushed; `none` is an IntegrityError.
  pub insert_job : Db → CrawlJob → Option Db
  pub insert_website : Db → Website → Option Db
  -- A changed object is flushed.
  pub update_job : Db → CrawlJob → Db
  -- uuid4() and datetime.now(UTC)
  pub uuid : Db → ℕ
  pub now : Db → ℕ
  -- celery_app.send_task for a job: the name of the exception's type, if it raises
  pub send_task : Queue → ℕ → Result Text (Unit {0}) × Queue

abbrev pub replace_job : CrawlJob → List CrawlJob → List CrawlJob
replace_job job [] = []
replace_job job (row ∷ rows) = (if row.id == job.id then job else row) ∷ replace_job job rows

-- An insert adds its row and an update replaces it; other rows and the other table stay.
pub record IsRelational (services : Services) : Type 0 where
  pub jobs-insert_job :
      (db db' : services.Db) (job : CrawlJob)
      → services.insert_job db job ≡ some db'
      → services.jobs db' ≡ job ∷ services.jobs db
  pub websites-insert_job :
      (db db' : services.Db) (job : CrawlJob)
      → services.insert_job db job ≡ some db'
      → services.websites db' ≡ services.websites db
  pub websites-insert_website :
      (db db' : services.Db) (website : Website)
      → services.insert_website db website ≡ some db'
      → services.websites db' ≡ website ∷ services.websites db
  pub jobs-insert_website :
      (db db' : services.Db) (website : Website)
      → services.insert_website db website ≡ some db'
      → services.jobs db' ≡ services.jobs db
  pub jobs-update_job :
      (db : services.Db) (job : CrawlJob)
      → services.jobs (services.update_job db job) ≡ replace_job job (services.jobs db)
  pub websites-update_job :
      (db : services.Db) (job : CrawlJob)
      → services.websites (services.update_job db job) ≡ services.websites db

-- The state that the routes share.
pub record State (services : Services) : Type 0 where
  pub db : services.Db
  pub queue : services.Queue
