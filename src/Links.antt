-- ===== src/Links.antt =====
-- What the crawler takes from the links of a page.
use webintel.Prelude.{Bool, Option, Text}
pub mod Extract
pub mod Important
pub mod Social

-- ExtractedLink of app/services/crawler/link_extractor.py
pub record ExtractedLink : Type 0 where
  pub target_url : Text
  pub normalized_target_url : Text
  pub link_text : Option Text
  pub is_internal : Bool
