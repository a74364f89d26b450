-- ===== src/Schema/Main.antt =====
-- app/db/models: the models of websites, crawl jobs and pages. A default is that of the server;
-- those of Python and the relationships are no part of the tables.
use webintel.Prelude.{true, false, List, [], ◌∷◌, ◌++◌, Option, some, Text, codes}
use webintel.Schema.{
  uuid, text, boolean, integer, big_integer, date_time_tz, jsonb, string, enum, sql, literal,
  OnDelete, cascade,
}
use webintel.Schema.Convention.{
  ForeignKey, mapped_column, Model, uuid_primary_key_mixin, timestamp_mixin, created_at,
}

abbrev pub references : Text → Text → OnDelete → Option ForeignKey
references table column ondelete =
    some (record { table = table; column = column; ondelete = ondelete })

-- [e.value for e in CrawlJobStatus], [e.value for e in ImportantPageType]
abbrev crawl_job_status_values : List Text
crawl_job_status_values =
    codes "queued" ∷ codes "running" ∷ codes "completed" ∷ codes "failed" ∷ codes "cancelled" ∷ []

abbrev pub important_page_type_values : List Text
important_page_type_values =
    codes "pricing"
    ∷ codes "careers"
    ∷ codes "blog"
    ∷ codes "contact"
    ∷ codes "about"
    ∷ codes "docs"
    ∷ codes "login"
    ∷ codes "signup"
    ∷ codes "terms"
    ∷ codes "privacy"
    ∷ []

-- Website
abbrev pub website_model : Model
website_model = record {
  table_name = codes "websites";
  columns =
      (record (mapped_column (codes "domain") (string 253) false) { unique = true; index = true }
        ∷ mapped_column (codes "root_url") text false
        ∷ mapped_column (codes "title") (string 512) true
        ∷ mapped_column (codes "description") text true
        ∷ record (mapped_column (codes "has_email") boolean false) {
          server_default = some (sql (codes "false"));
        }
        ∷ record (mapped_column (codes "has_pricing_page") boolean false) {
          server_default = some (sql (codes "false"));
        }
        ∷ record (mapped_column (codes "has_careers_page") boolean false) {
          server_default = some (sql (codes "false"));
        }
        ∷ record (mapped_column (codes "has_blog") boolean false) {
          server_default = some (sql (codes "false"));
        }
        ∷ record (mapped_column (codes "has_contact_page") boolean false) {
          server_default = some (sql (codes "false"));
        }
        ∷ mapped_column (codes "last_crawled_at") date_time_tz true
        ∷ [])
      ++ uuid_primary_key_mixin
      ++ timestamp_mixin;
  checks = [];
  uniques = [];
}

-- CrawlJob
abbrev pub crawl_job_model : Model
crawl_job_model = record {
  table_name = codes "crawl_jobs";
  columns =
      (record (mapped_column (codes "website_id") uuid false) {
        foreign_key = references (codes "websites") (codes "id") cascade;
        index = true;
      }
        ∷ mapped_column (codes "start_url") text false
        ∷ record (mapped_column (codes "status")
            (enum (codes "crawl_job_status") (crawl_job_status_values)) false) {
              server_default = some (literal (codes "queued"));
              index = true;
            }
        ∷ record (mapped_column (codes "max_pages") integer false) {
          server_default = some (sql (codes "20"));
        }
        ∷ record (mapped_column (codes "pages_crawled") integer false) {
          server_default = some (sql (codes "0"));
        }
        ∷ record (mapped_column (codes "pages_failed") integer false) {
          server_default = some (sql (codes "0"));
        }
        ∷ mapped_column (codes "error_message") text true
        ∷ mapped_column (codes "started_at") date_time_tz true
        ∷ mapped_column (codes "finished_at") date_time_tz true
        ∷ [])
      ++ uuid_primary_key_mixin
      ++ timestamp_mixin;
  checks =
      record { name = codes "max_pages_range"; sqltext = codes "max_pages BETWEEN 1 AND 100" }
      ∷ record { name = codes "pages_crawled_nonnegative"; sqltext = codes "pages_crawled >= 0" }
      ∷ record { name = codes "pages_failed_nonnegative"; sqltext = codes "pages_failed >= 0" }
      ∷ [];
  uniques = [];
}

-- Page
abbrev pub page_model : Model
page_model = record {
  table_name = codes "pages";
  columns =
      (record (mapped_column (codes "website_id") uuid false) {
        foreign_key = references (codes "websites") (codes "id") cascade;
        index = true;
      }
        ∷ record (mapped_column (codes "crawl_job_id") uuid false) {
          foreign_key = references (codes "crawl_jobs") (codes "id") cascade;
          index = true;
        }
        ∷ mapped_column (codes "url") text false
        ∷ mapped_column (codes "normalized_url") text false
        ∷ mapped_column (codes "title") (string 512) true
        ∷ mapped_column (codes "meta_description") text true
        ∷ record (mapped_column (codes "headings") jsonb false) {
          server_default = some (sql (codes "'[]'::jsonb"));
        }
        ∷ mapped_column (codes "status_code") integer true
        ∷ mapped_column (codes "content_type") (string 255) true
        ∷ mapped_column (codes "response_time_ms") integer true
        ∷ mapped_column (codes "content_hash") (string 64) true
        ∷ mapped_column (codes "page_size_bytes") big_integer true
        ∷ mapped_column (codes "text_preview") text true
        ∷ mapped_column (codes "fetch_error") text true
        ∷ mapped_column (codes "crawled_at") date_time_tz false
        ∷ created_at
        ∷ [])
      ++ uuid_primary_key_mixin;
  checks = [];
  uniques =
      record {
        name = codes "uq_pages_job_normalized_url";
        columns = codes "crawl_job_id" ∷ codes "normalized_url" ∷ [];
      }
      ∷ [];
}

-- Link
