-- ===== src/Jobs/Models.antt =====
-- The rows of app/db/models that crawl jobs are about.
-- Identifiers (UUIDs) and times are numbers. Not in the records: `updated_at` of TimestampMixin, which
-- the database writes and no operation reads, and the relationships of the object mapper.
use webintel.Prelude.{ℕ, ◌≡◌, ◌↔◌, Bool, true, false, ◌&&◌, Option, none, Text, leb, Eq, arith}

pub data CrawlJobStatus : Type 0 where
  queued running completed failed cancelled : CrawlJobStatus

abbrev pub status_eq : CrawlJobStatus → CrawlJobStatus → Bool
status_eq queued queued = true
status_eq running running = true
status_eq completed completed = true
status_eq failed failed = true
status_eq cancelled cancelled = true
status_eq _ _ = false

pub status_eq_iff : (a b : CrawlJobStatus) → (status_eq a b ≡ true) ↔ (a ≡ b)
status_eq_iff a b = ground arith

instance abbrev pub status_Eq : Eq CrawlJobStatus
status_Eq = record { equal = status_eq; equal_iff = status_eq_iff }

pub record Website : Type 0 where
  pub id : ℕ
  pub domain : Text
  pub root_url : Text
  pub title : Option Text
  pub description : Option Text
  pub has_email : Bool
  pub has_pricing_page : Bool
  pub has_careers_page : Bool
  pub has_blog : Bool
  pub has_contact_page : Bool
  pub last_crawled_at : Option ℕ
  pub created_at : ℕ

-- Website(domain=..., root_url=...), with the columns' defaults
abbrev pub new_website : ℕ → ℕ → Text → Text → Website
new_website id created_at domain root_url = record {
  id = id;
  domain = domain;
  root_url = root_url;
  title = none;
  description = none;
  has_email = false;
  has_pricing_page = false;
  has_careers_page = false;
  has_blog = false;
  has_contact_page = false;
  last_crawled_at = none;
  created_at = created_at;
}

pub record CrawlJob : Type 0 where
  pub id : ℕ
  pub website_id : ℕ
  pub start_url : Text
  pub status : CrawlJobStatus
  pub max_pages : ℕ
  pub pages_crawled : ℕ
  pub pages_failed : ℕ
  pub error_message : Option Text
  pub started_at : Option ℕ
  pub finished_at : Option ℕ
  pub created_at : ℕ

-- The check constraint on `max_pages`; the counts are not negative by their type.
abbrev pub is_max_pages : ℕ → Bool
is_max_pages n = leb 1 n && leb n 100
