-- ===== src/Schema/Models.antt =====
-- app/db/models: the columns and constraints of each model. A default is that of the server; those
-- of Python and the relationships are no part of the tables.
use webintel.Prelude.{true, false, List, [], ◌∷◌, ◌++◌, codes}
use webintel.Schema.{uuid, text, boolean, integer, string, numeric, enum, cascade, set_null}
use webintel.Schema.Convention.{mapped_column, Model, uuid_primary_key_mixin, created_at}
use webintel.Schema.Main.{
  crawl_job_model, important_page_type_values, page_model, references, website_model,
}

abbrev pub link_model : Model
link_model = record {
  table_name = codes "links";
  columns =
      (record (mapped_column (codes "source_page_id") uuid false) {
        foreign_key = references (codes "pages") (codes "id") cascade;
        index = true;
      }
        ∷ mapped_column (codes "target_url") text false
        ∷ mapped_column (codes "normalized_target_url") text false
        ∷ mapped_column (codes "link_text") (string 1024) true
        ∷ mapped_column (codes "is_internal") boolean false
        ∷ mapped_column (codes "is_broken") boolean true
        ∷ mapped_column (codes "status_code") integer true
        ∷ [])
      ++ uuid_primary_key_mixin;
  checks = [];
  uniques = [];
}

-- Email
abbrev pub email_model : Model
email_model = record {
  table_name = codes "emails";
  columns =
      (record (mapped_column (codes "website_id") uuid false) {
        foreign_key = references (codes "websites") (codes "id") cascade;
        index = true;
      }
        ∷ record (mapped_column (codes "page_id") uuid true) {
          foreign_key = references (codes "pages") (codes "id") set_null;
          index = true;
        }
        ∷ mapped_column (codes "email") (string 320) false
        ∷ created_at
        ∷ [])
      ++ uuid_primary_key_mixin;
  checks = [];
  uniques =
      record {
        name = codes "uq_emails_website_email";
        columns = codes "website_id" ∷ codes "email" ∷ [];
      }
      ∷ [];
}

-- SocialLink
abbrev pub social_link_model : Model
social_link_model = record {
  table_name = codes "social_links";
  columns =
      (record (mapped_column (codes "website_id") uuid false) {
        foreign_key = references (codes "websites") (codes "id") cascade;
        index = true;
      }
        ∷ mapped_column (codes "platform") (string 50) false
        ∷ mapped_column (codes "url") text false
        ∷ created_at
        ∷ [])
      ++ uuid_primary_key_mixin;
  checks = [];
  uniques =
      record {
        name = codes "uq_social_links_website_platform_url";
        columns = codes "website_id" ∷ codes "platform" ∷ codes "url" ∷ [];
      }
      ∷ [];
}

-- Technology
abbrev pub technology_model : Model
technology_model = record {
  table_name = codes "technologies";
  columns =
      (record (mapped_column (codes "website_id") uuid false) {
        foreign_key = references (codes "websites") (codes "id") cascade;
        index = true;
      }
        ∷ mapped_column (codes "name") (string 100) false
        ∷ mapped_column (codes "category") (string 100) false
        ∷ mapped_column (codes "confidence") (numeric 4 3) false
        ∷ mapped_column (codes "evidence") text false
        ∷ created_at
        ∷ [])
      ++ uuid_primary_key_mixin;
  checks =
      record { name = codes "confidence_range"; sqltext = codes "confidence BETWEEN 0 AND 1" } ∷ [];
  uniques =
      record {
        name = codes "uq_technologies_website_name";
        columns = codes "website_id" ∷ codes "name" ∷ [];
      }
      ∷ [];
}

-- ImportantPage
abbrev pub important_page_model : Model
important_page_model = record {
  table_name = codes "important_pages";
  columns =
      (record (mapped_column (codes "website_id") uuid false) {
        foreign_key = references (codes "websites") (codes "id") cascade;
        index = true;
      }
        ∷ mapped_column (codes "page_type")
            (enum (codes "important_page_type") (important_page_type_values)) false
        ∷ mapped_column (codes "url") text false
        ∷ mapped_column (codes "confidence") (numeric 4 3) false
        ∷ created_at
        ∷ [])
      ++ uuid_primary_key_mixin;
  checks =
      record { name = codes "confidence_range"; sqltext = codes "confidence BETWEEN 0 AND 1" } ∷ [];
  uniques =
      record {
        name = codes "uq_important_pages_website_type_url";
        columns = codes "website_id" ∷ codes "page_type" ∷ codes "url" ∷ [];
      }
      ∷ [];
}

-- The models of Base.metadata.
abbrev pub metadata : List Model
metadata =
    website_model ∷ crawl_job_model ∷ page_model ∷ link_model ∷ email_model ∷ social_link_model
    ∷ technology_model ∷ important_page_model ∷ []
