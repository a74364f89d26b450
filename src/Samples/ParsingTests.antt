-- ===== src/Samples/ParsingTests.antt =====
-- The theorems on the extractors at a sample document.
use webintel.Prelude.{
  ◌↔◌, ◌≡◌, refl, ◌||◌, true, false, [], ◌∷◌, none, some, Text, codes, pos, is_below, text_Eq,
  text_eq, pair_Eq,
}
use webintel.Prelude.Dict
use webintel.Py.Str.{
  strip, is_space, starts_with, words, join, lower_char, split, ends_with, has_sub, decimal,
  ascii_int,
}
use webintel.Py.Split.{urlsplit, hostname, port, has_userinfo, urlunsplit}
use webintel.Url.Percent.{has_invalid_escape, normalize_percent_encoding}
use webintel.Url.Path.{normalize_path}
use webintel.Url.Query.{is_kept, normalize_query, kept_items}
use webintel.Url.Normalize.{
  normalize_url, normalize_absolute, canonicalize, checked_host, prepare, port_suffix, join_base,
}
use webintel.Url.Host.{
  is_dns_label, canonicalize_hostname, direct_address, ensure_public_address, is_localhost,
  is_public_hostname,
}
use webintel.Url.Scope.{from_url, contains, url_hostname}
use webintel.Links.{ExtractedLink}
use webintel.Links.Extract.{
  document_base, anchor_href, link_text, new_link, add_anchors, extract_links,
}
use webintel.Links.Extract.Links.{IsExtraction, extract_links-IsExtraction}
use webintel.Links.Important.{
  blog, page_type_Eq, ImportantPageCandidate, Candidates, detect_important_pages, confidence,
  offer_links, offer_types,
}
use webintel.Links.Important.Best.{Key, score, best_of_links, IsKeyed, detect_important_pages-best}
use webintel.Links.Social.{detect_social_links, link_platform}
use webintel.Parsing.Emails.{
  EmailSet, extract_emails, normalize_email, add_candidates, add_nodes, recipients, find_emails,
}
use webintel.Parsing.Emails.Address.{IsEmail}
use webintel.Parsing.Emails.Found.{in_nodes, in_anchors, extract_emails_lem}
use webintel.Parsing.Parse.{
  ParsedPage, clean_text, parse_html, meta_from, headings_from, visible_text,
}
use webintel.Parsing.Parse.Page.{IsParsed, parse_html-IsParsed}
use webintel.Parsing.Parse.Clean.{clean_text_lem, is_tidy}
use webintel.Samples.{
  sample_python, sample_html, sample_string, sample_anchor, mail_anchor, start_url, end_url,
}

clean_text_lem_example :
    ((cleaned : Text)
      → clean_text none (codes " Hi  all ") ≡ some cleaned
      → (words cleaned ≡ words (codes " Hi  all ")) × (is_tidy true cleaned ≡ true))
    × ((clean_text none (codes " Hi  all ") ≡ none) ↔ (words (codes " Hi  all ") ≡ []))
clean_text_lem_example = clean_text_lem (codes " Hi  all ")

abbrev sample_link : ExtractedLink
sample_link = record {
  target_url = end_url;
  normalized_target_url = end_url;
  link_text = some (codes "blog");
  is_internal = true;
}

extract_links-IsExtraction_example :
    IsExtraction sample_python
      (sample_html (sample_anchor ∷ sample_anchor ∷ []))
      (codes "<a>")
      start_url
      none
      (sample_link ∷ [])
unfolding extract_links document_base anchor_href link_text new_link add_anchors from_url contains
    sample_python text_eq lower_char urlsplit hostname port has_userinfo normalize_url
    normalize_absolute canonicalize checked_host prepare is_space port_suffix decimal ascii_int
    normalize_path normalize_percent_encoding normalize_query urlunsplit canonicalize_hostname
    direct_address ensure_public_address is_localhost is_public_hostname strip starts_with words
    join kept_items is_kept has_invalid_escape split url_hostname join_base Dict.has Dict.set
extract_links-IsExtraction_example =
    extract_links-IsExtraction sample_python (sample_html (sample_anchor ∷ sample_anchor ∷ []))
      (codes "<a>") start_url none (sample_link ∷ []) refl

abbrev sample_page : ImportantPageCandidate
sample_page = record { page_type = blog; url = end_url; confidence = 80 }

detect_important_pages-best_example :
    (table : Candidates sample_python) × (sample_page ∷ [] ≡ Dict.values table)
    × Dict.HasDistinctKeys table
    × IsKeyed sample_python table
    × ((k : Key) → score (Dict.get table k) ≡ best_of_links sample_python k (sample_link ∷ []))
unfolding detect_important_pages offer_links offer_types confidence sample_python text_eq urlsplit
    lower_char Dict.get Dict.set
detect_important_pages-best_example =
    detect_important_pages-best sample_python (sample_link ∷ []) (sample_page ∷ []) refl

extract_emails_lem_example :
    (table : EmailSet sample_python) × (codes "x@b.io" ∷ codes "me@a.io" ∷ [] ≡ Dict.keys table)
    × Dict.HasDistinctKeys table
    × ((email : Text)
        → Dict.has table email ≡ (
            in_nodes sample_python email (sample_string ∷ [])
            || in_anchors sample_python email (mail_anchor ∷ [])))
    × ((email : Text) → Dict.has table email ≡ true → IsEmail email)
unfolding extract_emails add_nodes add_candidates recipients normalize_email find_emails
    sample_python text_eq starts_with lower_char urlsplit ends_with has_sub is_dns_label
    Dict.set_default
extract_emails_lem_example =
    extract_emails_lem sample_python (sample_html (mail_anchor ∷ [])) tt
      (codes "x@b.io" ∷ codes "me@a.io" ∷ []) refl

abbrev sample_parsed : ParsedPage
sample_parsed = record {
  title = some (codes "Hi all");
  meta_description = none;
  headings = record { level = pos 1; text = codes "Hi all" } ∷ [];
  emails = codes "x@b.io" ∷ [];
  social_links = [];
  important_pages = sample_page ∷ [];
  links = sample_link ∷ [];
  text_preview = some (codes "x@b");
}

parse_html-IsParsed_example :
    (is_below (pos 3) 1 ≡ false)
    × IsParsed sample_python
        (sample_html (sample_anchor ∷ []))
        (codes "<a>")
        start_url
        none
        (pos 3)
        sample_parsed
unfolding parse_html extract_links document_base anchor_href link_text new_link add_anchors from_url
    contains sample_python text_eq lower_char urlsplit hostname port has_userinfo normalize_url
    normalize_absolute canonicalize checked_host prepare is_space port_suffix decimal ascii_int
    normalize_path normalize_percent_encoding normalize_query urlunsplit canonicalize_hostname
    direct_address ensure_public_address is_localhost is_public_hostname strip starts_with words
    join kept_items is_kept has_invalid_escape split url_hostname join_base Dict.has Dict.set
    detect_important_pages offer_links offer_types confidence extract_emails add_nodes
    add_candidates recipients normalize_email find_emails ends_with has_sub is_dns_label
    Dict.set_default Dict.get detect_social_links clean_text meta_from headings_from visible_text
    link_platform
parse_html-IsParsed_example =
    parse_html-IsParsed sample_python (sample_html (sample_anchor ∷ [])) (codes "<a>") start_url
      none (pos 3) sample_parsed refl
