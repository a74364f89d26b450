-- ===== src/Parsing/Parse.antt =====
-- app/services/crawler/parser.py
use webintel.Prelude.{
  ℕ, ℤ, is_below, pos_part, Bool, true, false, List, [], ◌∷◌, ◌++◌, Option, none, some, Text, codes,
  get_elem?, take, ◌==◌, text_Eq, if◌then◌else◌, ◌≡◌,
}
use mathlib.Core.Option
use webintel.Prelude.Result.{Result, ok, err, ◌>>=◌, ◌>>◌, raise_if, or_raise}
use webintel.Py.Str.{words, join}
use webintel.Py.Tables.{Python}
use webintel.Url.Errors.{UrlError}
use webintel.Html.{Attribute, Element, TextNode, BeautifulSoup, as_str}
use webintel.Links.{ExtractedLink}
use webintel.Links.Extract.{extract_links}
use webintel.Links.Important.{ImportantPageCandidate, detect_important_pages}
use webintel.Links.Social.{SocialLinkCandidate, detect_social_links}
use webintel.Parsing.Emails.{is_visible, extract_emails}
pub mod Clean
pub mod Page

-- What `parse_html` raises: the errors of the URL functions, a ValueError of its own or of another
-- call, and the IndexError of `element.name[1]`.
pub data ParseError : Type 0 where
  url_error : UrlError → ParseError
  value_error index_error : ParseError

pub record Heading : Type 0 where
  pub level : ℤ
  pub text : Text

pub record ParsedPage : Type 0 where
  pub title : Option Text
  pub meta_description : Option Text
  pub headings : List Heading
  pub emails : List Text
  pub social_links : List SocialLinkCandidate
  pub important_pages : List ImportantPageCandidate
  pub links : List ExtractedLink
  pub text_preview : Option Text

abbrev pub cut : Option ℕ → Text → Text
cut none t = t
cut (some limit) t = take limit t

abbrev pub cut_some : Option ℕ → Text → Option Text
cut_some limit [] = none
cut_some limit (c ∷ s) = some (cut limit (c ∷ s))

-- _clean_text
unfoldable pub clean_text : Option ℕ → Text → Option Text
unfolding words join
clean_text limit value = cut_some limit (join b' ' (words value))

abbrev is_attribute : Python → Option Attribute → Text → Bool
is_attribute py attribute wanted = elim (as_str attribute) [
  | none ↦ false
  | some value ↦ py.lower value == wanted
]

module _ (py : Python) where
  -- The loop of _meta_description, with the `fallback` so far.
  unfoldable pub meta_from : Option Text → List Element → Option Text
  unfolding clean_text
  meta_from fallback [] = fallback
  meta_from fallback (meta ∷ metas) = elim (as_str (meta.get (codes "content"))) [
    | none ↦ meta_from fallback metas
    | some content ↦ elim (is_attribute py (meta.get (codes "name")) (codes "description")) [
      | true ↦ clean_text (some 2000) content
      | false ↦
          meta_from
            (if is_attribute py (meta.get (codes "property")) (codes "og:description")
              then clean_text (some 2000) content
              else fallback)
            metas
    ]
  ]

  -- int(element.name[1])
  abbrev int_of : Option ℕ → Result ParseError ℤ
  int_of none = err index_error
  int_of (some c) = or_raise (py.int (c ∷ [])) value_error

  abbrev pub add_heading : Element → Option Text → List Heading → Result ParseError (List Heading)
  add_heading element none rest = ok rest
  add_heading element (some text) rest = do
    level ← int_of (get_elem? element.name 1)
    ok (record { level = level; text = text } ∷ rest)

  -- The loop of _headings.
  unfoldable pub headings_from : List Heading → List Element → Result ParseError (List Heading)
  unfolding clean_text
  headings_from headings [] = ok headings
  headings_from headings (element ∷ elements) =
      elim (add_heading element (clean_text (some 1000) element.get_text) []) [
        | err e ↦ err e
        | ok added ↦ headings_from (headings ++ added) elements
      ]

  abbrev heading_names : List Text
  heading_names = codes "h1" ∷ codes "h2" ∷ codes "h3" ∷ []

  abbrev add_part : Option Text → List Text → List Text
  add_part none parts = parts
  add_part (some text) parts = text ∷ parts

  visible_parts : List TextNode → List Text
  unfolding clean_text
  visible_parts [] = []
  visible_parts (node ∷ nodes) =
      let rest = visible_parts nodes in
      if is_visible py node then add_part (clean_text none node.string) rest else rest

  -- _visible_text
  unfoldable pub visible_text : List TextNode → ℕ → Option Text
  unfolding visible_parts clean_text
  visible_text nodes limit = clean_text (some limit) (join b' ' (visible_parts nodes))

  abbrev of_url_error {ℓ} : {A : Type ℓ} → Result UrlError A → Result ParseError A
  of_url_error (ok a) = ok a
  of_url_error (err e) = err (url_error e)

  abbrev title_text : Option Element → Option Text
  unfolding clean_text
  title_text none = none
  title_text (some title) = clean_text (some 512) title.get_text

  -- parse_html
  unfoldable pub parse_html :
      BeautifulSoup → Text → Text → Option Text → ℤ → Result ParseError ParsedPage
  unfolding title_text
  parse_html html text page_url crawl_root_url text_preview_limit = do
    raise_if (is_below text_preview_limit 1) value_error
    let soup = html.parse text
    links ← of_url_error (extract_links py html text page_url crawl_root_url)
    headings ← headings_from [] (html.find_all soup heading_names)
    emails ← or_raise (extract_emails py html soup) value_error
    social_links ← or_raise (detect_social_links py links) value_error
    important_pages ← or_raise (detect_important_pages py links) value_error
    ok (record {
      title = title_text (html.title soup);
      meta_description = meta_from none (html.find_all soup (codes "meta" ∷ []));
      headings = headings;
      emails = emails;
      social_links = social_links;
      important_pages = important_pages;
      links = links;
      text_preview = visible_text (html.find_all_strings soup) (pos_part text_preview_limit);
    })
