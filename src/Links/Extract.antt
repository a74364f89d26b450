-- ===== src/Links/Extract.antt =====
-- app/services/crawler/link_extractor.py
use webintel.Prelude.{
  ℕ, Bool, true, false, ◌||◌, List, [], ◌∷◌, Option, none, some, Text, codes, is_empty, take, ◌==◌,
  text_Eq, if◌then◌else◌,
}
use webintel.Prelude.Dict
use webintel.Prelude.Dict.{Dict}
use webintel.Prelude.Result.{Result, ok, err, ◌>>=◌, or_raise}
use webintel.Py.Str.{strip, is_space, starts_with, words, join}
use webintel.Py.Tables.{Python}
use webintel.Url.Errors.{UrlError, value_error, is_normalization_error}
use webintel.Url.Normalize.{normalize_url}
use webintel.Url.Scope.{except, CrawlScope, from_url, contains}
use webintel.Html.{Attribute, Element, BeautifulSoup, first, as_str}
use webintel.Links.{ExtractedLink}
pub mod Laws
pub mod Links

-- `crawl_root_url or normalized_page_url`
abbrev pub text_or : Option Text → Text → Text
text_or none default = default
text_or (some []) default = default
text_or (some (c ∷ s)) default = c ∷ s

-- `text or None`
abbrev pub or_none : Text → Option Text
or_none [] = none
or_none (c ∷ s) = some (c ∷ s)

abbrev pub max_link_text : ℕ
max_link_text = 1024

module _ (py : Python) where
  -- The `try` of _document_base.
  abbrev absolute_base : Text → Text → Result UrlError Text
  absolute_base page_url href = do
    absolute ← or_raise (py.urljoin page_url (strip is_space (py.unescape href))) value_error
    normalized ← normalize_url py absolute none false
    ok absolute

  abbrev base_of_href : Text → Option Text → Result UrlError Text
  base_of_href page_url none = ok page_url
  base_of_href page_url (some href) = except (absolute_base page_url href) page_url

  abbrev base_of_element : Text → Option Element → Result UrlError Text
  base_of_element page_url none = ok page_url
  base_of_element page_url (some element) =
      base_of_href page_url (as_str (element.get (codes "href")))

  -- _document_base
  unfoldable pub document_base : (html : BeautifulSoup) → html.Soup → Text → Result UrlError Text
  unfolding strip is_space
  document_base html soup page_url =
      base_of_element page_url (first (html.find_all_href soup (codes "base")))

  -- The href of an anchor that the loop goes on with.
  abbrev stripped_href : Text → Option Text
  stripped_href href = if is_empty href || starts_with href (codes "#") then none else some href

  unfoldable pub anchor_href : Element → Option Text
  unfolding strip is_space starts_with
  anchor_href anchor = elim (as_str (anchor.get (codes "href"))) [
    | none ↦ none
    | some href ↦ stripped_href (strip is_space (py.unescape href))
  ]

  -- `" ".join(anchor.get_text(" ", strip=True).split())[:1024] or None`
  unfoldable pub link_text : Element → Option Text
  unfolding words join
  link_text anchor = or_none (take max_link_text (join b' ' (words anchor.get_text)))

  -- links_by_url
  abbrev pub LinksByUrl : Type 0
  LinksByUrl = Dict Text ExtractedLink

  module _ (scope : CrawlScope) (resolution_base : Text) where
    -- The link of a new URL; what it calls may raise.
    unfoldable pub new_link : Element → Text → Text → Result UrlError ExtractedLink
    unfolding link_text
    new_link anchor href normalized_target = do
      joined ← or_raise (py.urljoin resolution_base href) value_error
      resolved_target ← or_raise (py.urldefrag joined) value_error
      is_internal ← contains py scope normalized_target
      ok (record {
        target_url = resolved_target;
        normalized_target_url = normalized_target;
        link_text = link_text anchor;
        is_internal = is_internal;
      })

    abbrev pub add_target : LinksByUrl → Element → Text → Text → Result UrlError LinksByUrl
    add_target links anchor href normalized_target =
        if Dict.has links normalized_target then ok links else (do
          link ← new_link anchor href normalized_target
          ok (Dict.set links normalized_target link))

    -- `except UrlNormalizationError: continue` is about the normalisation alone.
    abbrev pub add_normalized :
        LinksByUrl → Element → Text → Result UrlError Text → Result UrlError LinksByUrl
    add_normalized links anchor href (ok normalized_target) =
        add_target links anchor href normalized_target
    add_normalized links anchor href (err e) = if is_normalization_error e then ok links else err e

    abbrev pub add_href : LinksByUrl → Element → Option Text → Result UrlError LinksByUrl
    add_href links anchor none = ok links
    add_href links anchor (some href) =
        add_normalized links anchor href (normalize_url py href (some resolution_base) false)

    -- The loop over the anchors.
    unfoldable pub add_anchors : LinksByUrl → List Element → Result UrlError LinksByUrl
    add_anchors links [] = ok links
    add_anchors links (anchor ∷ anchors) = do
      more ← add_href links anchor (anchor_href anchor)
      add_anchors more anchors

  -- extract_links
  unfoldable pub extract_links :
      BeautifulSoup → Text → Text → Option Text → Result UrlError (List ExtractedLink)
  unfolding add_anchors
  extract_links html text page_url crawl_root_url = do
    normalized_page_url ← normalize_url py page_url none false
    scope ← from_url py (text_or crawl_root_url normalized_page_url)
    let soup = html.parse text
    resolution_base ← document_base html soup page_url
    links_by_url ← add_anchors scope resolution_base [] (html.find_all_href soup (codes "a"))
    ok (Dict.values links_by_url)
