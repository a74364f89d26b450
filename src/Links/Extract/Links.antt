-- ===== src/Links/Extract/Links.antt =====
-- What a call of `extract_links` returns, and what each of its links says.
use webintel.Prelude.{
  ℕ, ◌≡◌, ◌≤◌, refl, sym, ◌∙◌, subst, inl, inr, false, List, [], ◌∷◌, Option, none, some, Text,
  codes, ◌==◌, text_Eq, text_eq_iff, Bool-cases, Option-cases, arith, length, length-take-le, take,
}
use webintel.Prelude.Dict
use webintel.Prelude.Result.{Result, ok, err, ◌>>=◌, or_raise, >>=-eq-ok, ok-injective}
use webintel.Py.Str.{words, join}
use webintel.Py.Tables.{Python}
use webintel.Url.Errors.{UrlError}
use webintel.Url.Normalize.{normalize_url}
use webintel.Url.Scope.{CrawlScope, from_url, contains}
use webintel.Html.{Element, BeautifulSoup}
use webintel.Links.{ExtractedLink}
use webintel.Links.Extract.{
  text_or, or_none, max_link_text, document_base, anchor_href, link_text, LinksByUrl, new_link,
  add_anchors, extract_links,
}
use webintel.Links.Extract.Laws.{
  ok_of, link_of_normalized, link_of_href, first_link, add_anchors-HoldsFirst,
}

abbrev pub IsShort : ℕ → Option Text → Type 0
IsShort limit none = Unit
IsShort limit (some t) = length t ≤ limit

or_none-IsShort : (limit : ℕ) (t : Text) → length t ≤ limit → IsShort limit (or_none t)
or_none-IsShort limit [] h = tt
or_none-IsShort limit (c ∷ t) h = h

module _ (py : Python) (scope : CrawlScope) (base : Text) where
  -- The link stands for this URL, knows whether the URL is in the scope, and its text is short.
  pub record IsLinkOf (url : Text) (link : ExtractedLink) : Type 0 where
    pub same_url : link.normalized_target_url ≡ url
    pub internal : contains py scope url ≡ ok link.is_internal
    pub short : IsShort max_link_text link.link_text

  new_link-IsLinkOf :
      (anchor : Element) (href url : Text) {link : ExtractedLink}
      → new_link py scope base anchor href url ≡ ok link
      → IsLinkOf url link
  unfolding new_link link_text
  new_link-IsLinkOf anchor href url {link} h =
      let (joined, e₁, h₁) = >>=-eq-ok (or_raise (py.urljoin base href) _) _ h in
      let (resolved, e₂, h₂) = >>=-eq-ok (or_raise (py.urldefrag joined) _) _ h₁ in
      let (internal, e₃, h₃) = >>=-eq-ok (contains py scope url) _ h₂ in
      subst (IsLinkOf url) (ok-injective h₃) (record {
        same_url = refl;
        internal = e₃;
        short =
            or_none-IsShort max_link_text (take max_link_text (join b' ' (words anchor.get_text)))
              (length-take-le max_link_text (join b' ' (words anchor.get_text)));
      })

  ok_of-eq-some :
      (r : Result UrlError ExtractedLink) {l : ExtractedLink} → ok_of r ≡ some l → r ≡ ok l
  ok_of-eq-some (ok a) h = cc
  ok_of-eq-some (err e) h = cc

  link_of_normalized-IsLinkOf :
      (url : Text) (anchor : Element) (href : Text) (m : Result UrlError Text)
      {link : ExtractedLink}
      → link_of_normalized py scope base url anchor href m ≡ some link
      → IsLinkOf url link
  link_of_normalized-IsLinkOf url anchor href (err e) h = cc
  link_of_normalized-IsLinkOf url anchor href (ok v) {link} h = elim (Bool-cases (v == url)) [
    | inl same ↦
        subst (λ u. IsLinkOf u link) ((text_eq_iff v url).0 same)
          (new_link-IsLinkOf anchor href v
            (ok_of-eq-some (new_link py scope base anchor href v) (rw same at h)))
    | inr ne ↦ absurd (ground (arith, rw ne at h))
  ]

  link_of_href-IsLinkOf :
      (url : Text) (anchor : Element) (o : Option Text) {link : ExtractedLink}
      → link_of_href py scope base url anchor o ≡ some link
      → IsLinkOf url link
  link_of_href-IsLinkOf url anchor none h = cc
  link_of_href-IsLinkOf url anchor (some href) h =
      link_of_normalized-IsLinkOf url anchor href (normalize_url py href (some base) false) h

  first_link-IsLinkOf :
      (url : Text) (anchors : List Element) {link : ExtractedLink}
      → first_link py scope base url anchors ≡ some link
      → IsLinkOf url link
  first_link-IsLinkOf url [] h = cc
  first_link-IsLinkOf url (anchor ∷ anchors) {link} h =
      elim (Option-cases (link_of_href py scope base url anchor (anchor_href py anchor))) [
        | inl n ↦ first_link-IsLinkOf url anchors (rw n at h)
        | inr (l, e) ↦ link_of_href-IsLinkOf url anchor (anchor_href py anchor) (e ∙ (rw e at h))
      ]

module _ (py : Python) (html : BeautifulSoup) (text page_url : Text) (root : Option Text)
    (links : List ExtractedLink) where
  pub record IsExtraction : Type 0 where
    pub scope : CrawlScope
    pub base : Text
    pub table : LinksByUrl py
    pub scoped :
        (do u ← normalize_url py page_url none false; from_url py (text_or root u)) ≡ ok scope
    pub based : document_base py html (html.parse text) page_url ≡ ok base
    pub returned : links ≡ Dict.values table
    pub distinct : Dict.HasDistinctKeys table
    pub first :
        (url : Text)
        → Dict.get table url
          ≡ first_link py scope base url (html.find_all_href (html.parse text) (codes "a"))
    pub each :
        (url : Text) (link : ExtractedLink)
        → Dict.get table url ≡ some link
        → IsLinkOf py scope base url link

-- If `extract_links` returns, then its links are the values of a table with distinct URLs. With the
-- scope of the crawl's root (the page itself, if there is no root) and the base of the document, each
-- URL has there the link of the first anchor whose href normalises to it, and no other URL has one;
-- that link has the URL, tells whether the scope contains it, and has a text of at most 1024
-- characters.
pub extract_links-IsExtraction :
    (py : Python) (html : BeautifulSoup) (text page_url : Text) (root : Option Text)
    (links : List ExtractedLink)
    → extract_links py html text page_url root ≡ ok links
    → IsExtraction py html text page_url root links
unfolding extract_links Dict.get
extract_links-IsExtraction py html text page_url root links h =
    let (u, e₁, h₁) = >>=-eq-ok (normalize_url py page_url none false) _ h in
    let (scope, e₂, h₂) = >>=-eq-ok (from_url py (text_or root u)) _ h₁ in
    let (base, e₃, h₃) = >>=-eq-ok (document_base py html (html.parse text) page_url) _ h₂ in
    let anchors = html.find_all_href (html.parse text) (codes "a") in
    let (table, e₄, h₄) = >>=-eq-ok (add_anchors py scope base [] anchors) _ h₃ in
    let (distinct, first) = add_anchors-HoldsFirst py scope base [] anchors {d' = table} tt e₄ in
    record {
      scope = scope;
      base = base;
      table = table;
      scoped = rw e₁ e₂;
      based = e₃;
      returned = sym (ok-injective h₄);
      distinct = distinct;
      first = first;
      each = λ url link k. first_link-IsLinkOf py scope base url anchors (sym (first url) ∙ k);
    }
