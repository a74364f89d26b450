-- ===== src/Schema/Initial.antt =====
-- alembic/versions/ef027d82d5e6_create_initial_schema.py: the statements of upgrade and downgrade.
use webintel.Prelude.{true, false, List, [], ◌∷◌, none, some, codes}
use webintel.Schema.{
  uuid, text, boolean, integer, big_integer, date_time_tz, jsonb, string, sql, cascade, set_null,
  Table,
}
use webintel.Schema.Catalog.{
  Operation, create_table, create_index, drop_index, drop_table, drop_enum,
}
use webintel.Schema.Created.{
  crawl_jobs_table, important_pages_table, new_column, new_index, social_links_table,
  technologies_table, websites_table,
}

abbrev pub pages_table : Table
pages_table = record {
  name = codes "pages";
  columns =
      new_column (codes "website_id") uuid false none
      ∷ new_column (codes "crawl_job_id") uuid false none
      ∷ new_column (codes "url") text false none
      ∷ new_column (codes "normalized_url") text false none
      ∷ new_column (codes "title") (string 512) true none
      ∷ new_column (codes "meta_description") text true none
      ∷ new_column (codes "headings") jsonb false (some (sql (codes "'[]'::jsonb")))
      ∷ new_column (codes "status_code") integer true none
      ∷ new_column (codes "content_type") (string 255) true none
      ∷ new_column (codes "response_time_ms") integer true none
      ∷ new_column (codes "content_hash") (string 64) true none
      ∷ new_column (codes "page_size_bytes") big_integer true none
      ∷ new_column (codes "text_preview") text true none
      ∷ new_column (codes "fetch_error") text true none
      ∷ new_column (codes "crawled_at") date_time_tz false none
      ∷ new_column (codes "created_at") date_time_tz false (some (sql (codes "now()")))
      ∷ new_column (codes "id") uuid false none
      ∷ [];
  checks = [];
  foreign_keys =
      record {
        name = codes "fk_pages_crawl_job_id_crawl_jobs";
        column = codes "crawl_job_id";
        ref_table = codes "crawl_jobs";
        ref_column = codes "id";
        ondelete = cascade;
      }
      ∷ record {
        name = codes "fk_pages_website_id_websites";
        column = codes "website_id";
        ref_table = codes "websites";
        ref_column = codes "id";
        ondelete = cascade;
      }
      ∷ [];
  primary_keys = record { name = codes "pk_pages"; columns = codes "id" ∷ [] } ∷ [];
  uniques =
      record {
        name = codes "uq_pages_job_normalized_url";
        columns = codes "crawl_job_id" ∷ codes "normalized_url" ∷ [];
      }
      ∷ [];
}

abbrev pub emails_table : Table
emails_table = record {
  name = codes "emails";
  columns =
      new_column (codes "website_id") uuid false none
      ∷ new_column (codes "page_id") uuid true none
      ∷ new_column (codes "email") (string 320) false none
      ∷ new_column (codes "created_at") date_time_tz false (some (sql (codes "now()")))
      ∷ new_column (codes "id") uuid false none
      ∷ [];
  checks = [];
  foreign_keys =
      record {
        name = codes "fk_emails_page_id_pages";
        column = codes "page_id";
        ref_table = codes "pages";
        ref_column = codes "id";
        ondelete = set_null;
      }
      ∷ record {
        name = codes "fk_emails_website_id_websites";
        column = codes "website_id";
        ref_table = codes "websites";
        ref_column = codes "id";
        ondelete = cascade;
      }
      ∷ [];
  primary_keys = record { name = codes "pk_emails"; columns = codes "id" ∷ [] } ∷ [];
  uniques =
      record {
        name = codes "uq_emails_website_email";
        columns = codes "website_id" ∷ codes "email" ∷ [];
      }
      ∷ [];
}

abbrev pub links_table : Table
links_table = record {
  name = codes "links";
  columns =
      new_column (codes "source_page_id") uuid false none
      ∷ new_column (codes "target_url") text false none
      ∷ new_column (codes "normalized_target_url") text false none
      ∷ new_column (codes "link_text") (string 1024) true none
      ∷ new_column (codes "is_internal") boolean false none
      ∷ new_column (codes "is_broken") boolean true none
      ∷ new_column (codes "status_code") integer true none
      ∷ new_column (codes "id") uuid false none
      ∷ [];
  checks = [];
  foreign_keys =
      record {
        name = codes "fk_links_source_page_id_pages";
        column = codes "source_page_id";
        ref_table = codes "pages";
        ref_column = codes "id";
        ondelete = cascade;
      }
      ∷ [];
  primary_keys = record { name = codes "pk_links"; columns = codes "id" ∷ [] } ∷ [];
  uniques = [];
}

-- upgrade
abbrev pub upgrade : List Operation
upgrade =
    create_table websites_table
    ∷ create_index
        (new_index (codes "ix_websites_domain") (codes "websites") (codes "domain" ∷ []) true)
    ∷ create_table crawl_jobs_table
    ∷ create_index
        (new_index (codes "ix_crawl_jobs_status") (codes "crawl_jobs") (codes "status" ∷ []) false)
    ∷ create_index (
        new_index (codes "ix_crawl_jobs_website_id") (codes "crawl_jobs") (codes "website_id" ∷ [])
          false)
    ∷ create_table important_pages_table
    ∷ create_index (
        new_index (codes "ix_important_pages_website_id") (codes "important_pages")
          (codes "website_id" ∷ []) false)
    ∷ create_table social_links_table
    ∷ create_index (
        new_index (codes "ix_social_links_website_id") (codes "social_links")
          (codes "website_id" ∷ []) false)
    ∷ create_table technologies_table
    ∷ create_index (
        new_index (codes "ix_technologies_website_id") (codes "technologies")
          (codes "website_id" ∷ []) false)
    ∷ create_table pages_table
    ∷ create_index (
        new_index (codes "ix_pages_crawl_job_id") (codes "pages") (codes "crawl_job_id" ∷ []) false)
    ∷ create_index
        (new_index (codes "ix_pages_website_id") (codes "pages") (codes "website_id" ∷ []) false)
    ∷ create_table emails_table
    ∷ create_index
        (new_index (codes "ix_emails_page_id") (codes "emails") (codes "page_id" ∷ []) false)
    ∷ create_index
        (new_index (codes "ix_emails_website_id") (codes "emails") (codes "website_id" ∷ []) false)
    ∷ create_table links_table
    ∷ create_index (
        new_index (codes "ix_links_source_page_id") (codes "links") (codes "source_page_id" ∷ [])
          false)
    ∷ []

-- downgrade
abbrev pub downgrade : List Operation
downgrade =
    drop_index (codes "ix_links_source_page_id") (codes "links")
    ∷ drop_table (codes "links")
    ∷ drop_index (codes "ix_emails_website_id") (codes "emails")
    ∷ drop_index (codes "ix_emails_page_id") (codes "emails")
    ∷ drop_table (codes "emails")
    ∷ drop_index (codes "ix_pages_website_id") (codes "pages")
    ∷ drop_index (codes "ix_pages_crawl_job_id") (codes "pages")
    ∷ drop_table (codes "pages")
    ∷ drop_index (codes "ix_technologies_website_id") (codes "technologies")
    ∷ drop_table (codes "technologies")
    ∷ drop_index (codes "ix_social_links_website_id") (codes "social_links")
    ∷ drop_table (codes "social_links")
    ∷ drop_index (codes "ix_important_pages_website_id") (codes "important_pages")
    ∷ drop_table (codes "important_pages")
    ∷ drop_index (codes "ix_crawl_jobs_website_id") (codes "crawl_jobs")
    ∷ drop_index (codes "ix_crawl_jobs_status") (codes "crawl_jobs")
    ∷ drop_table (codes "crawl_jobs")
    ∷ drop_index (codes "ix_websites_domain") (codes "websites")
    ∷ drop_table (codes "websites")
    ∷ drop_enum (codes "important_page_type")
    ∷ drop_enum (codes "crawl_job_status")
    ∷ []
