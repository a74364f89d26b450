-- ===== src/Schema/Created.antt =====
-- The tables of websites, crawl jobs, important pages, social links and technologies, as the first
-- migration creates them.
use webintel.Prelude.{Bool, true, false, List, [], ◌∷◌, Option, none, some, Text, codes}
use webintel.Schema.{
  ColumnType, uuid, text, boolean, integer, date_time_tz, string, numeric, enum, ServerDefault, sql,
  literal, cascade, Column, Table, Index,
}

abbrev pub new_column : Text → ColumnType → Bool → Option ServerDefault → Column
new_column name type nullable server_default = record {
  name = name;
  type = type;
  nullable = nullable;
  server_default = server_default;
}

abbrev pub new_index : Text → Text → List Text → Bool → Index
new_index name table columns unique = record {
  name = name;
  table = table;
  columns = columns;
  unique = unique;
}

abbrev pub websites_table : Table
websites_table = record {
  name = codes "websites";
  columns =
      new_column (codes "domain") (string 253) false none
      ∷ new_column (codes "root_url") text false none
      ∷ new_column (codes "title") (string 512) true none
      ∷ new_column (codes "description") text true none
      ∷ new_column (codes "has_email") boolean false (some (sql (codes "false")))
      ∷ new_column (codes "has_pricing_page") boolean false (some (sql (codes "false")))
      ∷ new_column (codes "has_careers_page") boolean false (some (sql (codes "false")))
      ∷ new_column (codes "has_blog") boolean false (some (sql (codes "false")))
      ∷ new_column (codes "has_contact_page") boolean false (some (sql (codes "false")))
      ∷ new_column (codes "last_crawled_at") date_time_tz true none
      ∷ new_column (codes "id") uuid false none
      ∷ new_column (codes "created_at") date_time_tz false (some (sql (codes "now()")))
      ∷ new_column (codes "updated_at") date_time_tz false (some (sql (codes "now()")))
      ∷ [];
  checks = [];
  foreign_keys = [];
  primary_keys = record { name = codes "pk_websites"; columns = codes "id" ∷ [] } ∷ [];
  uniques = [];
}

abbrev pub crawl_jobs_table : Table
crawl_jobs_table = record {
  name = codes "crawl_jobs";
  columns =
      new_column (codes "website_id") uuid false none
      ∷ new_column (codes "start_url") text false none
      ∷ new_column (codes "status")
          (enum (codes "crawl_job_status") (
            codes "queued"
            ∷ codes "running"
            ∷ codes "completed"
            ∷ codes "failed"
            ∷ codes "cancelled"
            ∷ []))
          false (some (literal (codes "queued")))
      ∷ new_column (codes "max_pages") integer false (some (sql (codes "20")))
      ∷ new_column (codes "pages_crawled") integer false (some (sql (codes "0")))
      ∷ new_column (codes "pages_failed") integer false (some (sql (codes "0")))
      ∷ new_column (codes "error_message") text true none
      ∷ new_column (codes "started_at") date_time_tz true none
      ∷ new_column (codes "finished_at") date_time_tz true none
      ∷ new_column (codes "id") uuid false none
      ∷ new_column (codes "created_at") date_time_tz false (some (sql (codes "now()")))
      ∷ new_column (codes "updated_at") date_time_tz false (some (sql (codes "now()")))
      ∷ [];
  checks =
      record {
        name = codes "ck_crawl_jobs_max_pages_range";
        sqltext = codes "max_pages BETWEEN 1 AND 100";
      }
      ∷ record {
        name = codes "ck_crawl_jobs_pages_crawled_nonnegative";
        sqltext = codes "pages_crawled >= 0";
      }
      ∷ record {
        name = codes "ck_crawl_jobs_pages_failed_nonnegative";
        sqltext = codes "pages_failed >= 0";
      }
      ∷ [];
  foreign_keys =
      record {
        name = codes "fk_crawl_jobs_website_id_websites";
        column = codes "website_id";
        ref_table = codes "websites";
        ref_column = codes "id";
        ondelete = cascade;
      }
      ∷ [];
  primary_keys = record { name = codes "pk_crawl_jobs"; columns = codes "id" ∷ [] } ∷ [];
  uniques = [];
}

abbrev pub important_pages_table : Table
important_pages_table = record {
  name = codes "important_pages";
  columns =
      new_column (codes "website_id") uuid false none
      ∷ new_column (codes "page_type")
          (enum (codes "important_page_type") (
            codes "pricing"
            ∷ codes "careers"
            ∷ codes "blog"
            ∷ codes "contact"
            ∷ codes "about"
            ∷ codes "docs"
            ∷ codes "login"
            ∷ codes "signup"
            ∷ codes "terms"
            ∷ codes "privacy"
            ∷ []))
          false none
      ∷ new_column (codes "url") text false none
      ∷ new_column (codes "confidence") (numeric 4 3) false none
      ∷ new_column (codes "created_at") date_time_tz false (some (sql (codes "now()")))
      ∷ new_column (codes "id") uuid false none
      ∷ [];
  checks =
      record {
        name = codes "ck_important_pages_confidence_range";
        sqltext = codes "confidence BETWEEN 0 AND 1";
      }
      ∷ [];
  foreign_keys =
      record {
        name = codes "fk_important_pages_website_id_websites";
        column = codes "website_id";
        ref_table = codes "websites";
        ref_column = codes "id";
        ondelete = cascade;
      }
      ∷ [];
  primary_keys = record { name = codes "pk_important_pages"; columns = codes "id" ∷ [] } ∷ [];
  uniques =
      record {
        name = codes "uq_important_pages_website_type_url";
        columns = codes "website_id" ∷ codes "page_type" ∷ codes "url" ∷ [];
      }
      ∷ [];
}

abbrev pub social_links_table : Table
social_links_table = record {
  name = codes "social_links";
  columns =
      new_column (codes "website_id") uuid false none
      ∷ new_column (codes "platform") (string 50) false none
      ∷ new_column (codes "url") text false none
      ∷ new_column (codes "created_at") date_time_tz false (some (sql (codes "now()")))
      ∷ new_column (codes "id") uuid false none
      ∷ [];
  checks = [];
  foreign_keys =
      record {
        name = codes "fk_social_links_website_id_websites";
        column = codes "website_id";
        ref_table = codes "websites";
        ref_column = codes "id";
        ondelete = cascade;
      }
      ∷ [];
  primary_keys = record { name = codes "pk_social_links"; columns = codes "id" ∷ [] } ∷ [];
  uniques =
      record {
        name = codes "uq_social_links_website_platform_url";
        columns = codes "website_id" ∷ codes "platform" ∷ codes "url" ∷ [];
      }
      ∷ [];
}

abbrev pub technologies_table : Table
technologies_table = record {
  name = codes "technologies";
  columns =
      new_column (codes "website_id") uuid false none
      ∷ new_column (codes "name") (string 100) false none
      ∷ new_column (codes "category") (string 100) false none
      ∷ new_column (codes "confidence") (numeric 4 3) false none
      ∷ new_column (codes "evidence") text false none
      ∷ new_column (codes "created_at") date_time_tz false (some (sql (codes "now()")))
      ∷ new_column (codes "id") uuid false none
      ∷ [];
  checks =
      record {
        name = codes "ck_technologies_confidence_range";
        sqltext = codes "confidence BETWEEN 0 AND 1";
      }
      ∷ [];
  foreign_keys =
      record {
        name = codes "fk_technologies_website_id_websites";
        column = codes "website_id";
        ref_table = codes "websites";
        ref_column = codes "id";
        ondelete = cascade;
      }
      ∷ [];
  primary_keys = record { name = codes "pk_technologies"; columns = codes "id" ∷ [] } ∷ [];
  uniques =
      record {
        name = codes "uq_technologies_website_name";
        columns = codes "website_id" ∷ codes "name" ∷ [];
      }
      ∷ [];
}
