-- ===== src/Pages.antt =====
-- app/db/models/page.py and app/db/repositories/page_repository.py
use webintel.Prelude.{
  ℕ, ◌≡◌, ◌≤◌, Bool, List, [], ◌∷◌, Option, none, some, Text, ◌==◌, nat_Eq, keep, take, drop, All,
}
use mathlib.Core.List.{Permᴰ}
use webintel.Jobs.Database.{find}
pub mod Newest

-- A row of `pages`; a heading is a JSON object. Identifiers (UUIDs) and times are numbers.
pub record Page (Json : Type 0) : Type 0 where
  pub id : ℕ
  pub website_id : ℕ
  pub crawl_job_id : ℕ
  pub url : Text
  pub normalized_url : Text
  pub title : Option Text
  pub meta_description : Option Text
  pub headings : List Json
  pub status_code : Option ℕ
  pub content_type : Option Text
  pub response_time_ms : Option ℕ
  pub content_hash : Option Text
  pub page_size_bytes : Option ℕ
  pub text_preview : Option Text
  pub fetch_error : Option Text
  pub crawled_at : ℕ
  pub created_at : ℕ

-- The keyword arguments of `create` that have a default.
pub record PageArguments (Json : Type 0) : Type 0 where
  pub title : Option Text
  pub meta_description : Option Text
  pub headings : Option (List Json)
  pub status_code : Option ℕ
  pub content_type : Option Text
  pub response_time_ms : Option ℕ
  pub content_hash : Option Text
  pub page_size_bytes : Option ℕ
  pub text_preview : Option Text
  pub fetch_error : Option Text

-- What the repository uses of SQLAlchemy and PostgreSQL: a parameter of the model.
pub record PageServices : Type 1 where
  pub Json : Type 0
  pub Db : Type 0
  pub pages : Db → List (Page Json)
  -- A new object is flushed; `none` is an IntegrityError.
  pub insert_page : Db → Page Json → Option Db
  -- ORDER BY crawled_at DESC in a query with this offset and limit; the order of equal times is up
  -- to the database, and may differ between two of these queries.
  pub newest_first : ℕ → ℕ → List (Page Json) → List (Page Json)
  pub uuid : Db → ℕ
  pub now : Db → ℕ

abbrev pub IsNewestFirst : {Json : Type 0} → List (Page Json) → Type 0
IsNewestFirst [] = Unit
IsNewestFirst (page ∷ rows) =
    All (λ row. row.crawled_at ≤ page.crawled_at) rows × IsNewestFirst rows

-- An insert adds its row, and an ordered result has the rows of the table in their order.
pub record IsOrdered (services : PageServices) : Type 0 where
  pub pages-insert_page :
      (db db' : services.Db) (page : Page services.Json)
      → services.insert_page db page ≡ some db'
      → services.pages db' ≡ page ∷ services.pages db
  pub newest_first-perm :
      (offset limit : ℕ) (rows : List (Page services.Json))
      → Permᴰ (services.newest_first offset limit rows) rows
  pub newest_first_sorted :
      (offset limit : ℕ) (rows : List (Page services.Json))
      → IsNewestFirst (services.newest_first offset limit rows)

-- `headings or []`
abbrev pub headings_or : {Json : Type 0} → Option (List Json) → List Json
headings_or none = []
headings_or (some headings) = headings

-- Page(website_id=..., crawl_job_id=..., ...)
abbrev pub new_page :
    {Json : Type 0} → ℕ → ℕ → ℕ → ℕ → Text → Text → ℕ → PageArguments Json → Page Json
new_page id created_at website_id crawl_job_id url normalized_url crawled_at given = record {
  id = id;
  website_id = website_id;
  crawl_job_id = crawl_job_id;
  url = url;
  normalized_url = normalized_url;
  title = given.title;
  meta_description = given.meta_description;
  headings = headings_or given.headings;
  status_code = given.status_code;
  content_type = given.content_type;
  response_time_ms = given.response_time_ms;
  content_hash = given.content_hash;
  page_size_bytes = given.page_size_bytes;
  text_preview = given.text_preview;
  fetch_error = given.fetch_error;
  crawled_at = crawled_at;
  created_at = created_at;
}

abbrev pub of_website : {Json : Type 0} → ℕ → Page Json → Bool
of_website website_id page = page.website_id == website_id

module _ (services : PageServices) where
  open services use {Db, Json}

  -- PageRepository.create
  unfoldable pub create_page :
      Db → ℕ → ℕ → Text → Text → ℕ → PageArguments Json → Option (Page Json × Db)
  create_page db website_id crawl_job_id url normalized_url crawled_at given =
      let page =
        new_page (services.uuid db) (services.now db) website_id crawl_job_id url normalized_url
          crawled_at given in
      elim (services.insert_page db page) [ none ↦ none | some db' ↦ some (page, db') ]

  -- PageRepository.get_by_id
  unfoldable pub get_page : Db → ℕ → Option (Page Json)
  unfolding find
  get_page db page_id = find (λ page. page.id == page_id) (services.pages db)

  -- PageRepository.list_for_website
  unfoldable pub list_for_website : Db → ℕ → ℕ → ℕ → List (Page Json)
  list_for_website db website_id offset limit = take limit (
      drop offset
        (services.newest_first offset limit (keep (of_website website_id) (services.pages db))))
