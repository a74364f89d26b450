-- ===== src/Parsing/Parse/Page.antt =====
-- What `parse_html` returns.
use webintel.Prelude.{
  ℕ, ℤ, is_below, pos_part, ◌≡◌, ◌≤◌, sym, subst, Bool, true, false, List, [], ◌∷◌, ◌++◌, Option,
  none, some, Text, codes, All, All-append, if◌then◌else◌, Bool-cases, Option-cases, inl, inr,
  arith, pos, negsuc, get_elem?, text_Eq,
}
use webintel.Prelude.Dict
use webintel.Prelude.Result.{
  Result, ok, err, raise_if, or_raise, >>=-eq-ok, raise_if-eq-ok, or_raise-eq-ok, ok-injective,
  Result-cases,
}
use webintel.Py.Tables.{Python}
use webintel.Py.Str.{join}
use webintel.Url.Errors.{UrlError}
use webintel.Html.{Element, TextNode, BeautifulSoup, as_str}
use webintel.Links.Extract.{extract_links}
use webintel.Links.Extract.Links.{IsExtraction, extract_links-IsExtraction}
use webintel.Links.Important.{detect_important_pages}
use webintel.Links.Social.{detect_social_links}
use webintel.Parsing.Emails.{extract_emails}
use webintel.Parsing.Emails.Address.{IsEmail}
use webintel.Parsing.Emails.Found.{extract_emails_lem}
use webintel.Parsing.Parse.{
  Heading, ParsedPage, clean_text, is_attribute, meta_from, int_of, add_heading, headings_from,
  heading_names, visible_parts, visible_text, of_url_error, title_text, parse_html,
}
use webintel.Parsing.Parse.Clean.{IsShortText, clean_text-IsShortText}

abbrev HasText : Heading → Type 0
HasText heading = IsShortText 1000 (some heading.text)

module _ (py : Python) where
  meta_from-IsShortText :
      (metas : List Element) (fallback : Option Text)
      → IsShortText 2000 fallback
      → IsShortText 2000 (meta_from py fallback metas)
  unfolding meta_from
  meta_from-IsShortText [] fallback h = h
  meta_from-IsShortText (meta ∷ metas) fallback h =
      elim (Option-cases (as_str (meta.get (codes "content")))) [
        | inl n ↦ rw (meta_from, n) (meta_from-IsShortText metas fallback h)
        | inr (content, e) ↦
            let cleaned = clean_text-IsShortText 2000 content (omega arith) in
            elim (Bool-cases (is_attribute py (meta.get (codes "name")) (codes "description"))) [
              | inl named ↦ rw (meta_from, e, named) cleaned
              | inr other ↦
                  rw (meta_from, e, other)
                    (meta_from-IsShortText metas _ (
                      either _
                        (is_attribute py (meta.get (codes "property")) (codes "og:description"))
                        cleaned))
            ]
      ]
    where
      either :
          (a : Option Text) (b : Bool)
          → IsShortText 2000 a
          → IsShortText 2000 (if b then a else fallback)
      either a true k = k
      either a false k = h

  add_heading-HasText :
      (element : Element) (o : Option Text) {added : List Heading}
      → IsShortText 1000 o
      → add_heading py element o [] ≡ ok added
      → All HasText added
  add_heading-HasText element none h e = subst (All HasText) (ok-injective e) tt
  add_heading-HasText element (some text) h e =
      let (level, found, made) = >>=-eq-ok (int_of py (get_elem? element.name 1)) _ e in
      subst (All HasText) (ok-injective made) (h, tt)

  headings_from-HasText :
      (headings : List Heading) (elements : List Element) {found : List Heading}
      → All HasText headings
      → headings_from py headings elements ≡ ok found
      → All HasText found
  unfolding headings_from
  headings_from-HasText headings [] h e = subst (All HasText) (ok-injective e) h
  headings_from-HasText headings (element ∷ elements) {found} h e =
      elim (Result-cases (add_heading py element (clean_text (some 1000) element.get_text) [])) [
        | inr (x, n) ↦ absurd (ground (arith, rw (headings_from, n) at e))
        | inl (added, n) ↦
            headings_from-HasText (headings ++ added) elements {found = found}
              (All-append HasText headings added h (
                add_heading-HasText element (clean_text (some 1000) element.get_text)
                  (clean_text-IsShortText 1000 element.get_text (omega arith)) n))
              (rw (headings_from, n) at e)
      ]

  title_text-IsShortText : (o : Option Element) → IsShortText 512 (title_text py o)
  unfolding title_text
  title_text-IsShortText none = tt
  title_text-IsShortText (some title) = clean_text-IsShortText 512 title.get_text (omega arith)

  visible_text-IsShortText :
      (nodes : List TextNode) (limit : ℕ)
      → 1 ≤ limit
      → IsShortText limit (visible_text py nodes limit)
  unfolding visible_text
  visible_text-IsShortText nodes limit h =
      clean_text-IsShortText limit (join b' ' (visible_parts py nodes)) h

  of_url_error-eq-ok {ℓ} :
      {A : Type ℓ} (r : Result UrlError A) {a : A} → of_url_error py r ≡ ok a → r ≡ ok a
  of_url_error-eq-ok (ok b) h = cc
  of_url_error-eq-ok (err e) h = cc

limit_positive : (n : ℤ) → is_below n 1 ≡ false → 1 ≤ pos_part n
limit_positive (pos n) h = ground (arith, h)
limit_positive (negsuc n) h = cc

-- The texts are not empty and fit their limits, the addresses are well formed, the links are those
-- that are extracted, and the social links and important pages are found among these.
pub record IsParsed (py : Python) (html : BeautifulSoup) (text page_url : Text) (root : Option Text)
    (limit : ℤ) (page : ParsedPage) : Type 1 where
  pub title : IsShortText 512 page.title
  pub meta_description : IsShortText 2000 page.meta_description
  pub headings : All HasText page.headings
  pub text_preview : IsShortText (pos_part limit) page.text_preview
  pub emails : All IsEmail page.emails
  pub links : IsExtraction py html text page_url root page.links
  pub social_links : detect_social_links py page.links ≡ some page.social_links
  pub important_pages : detect_important_pages py page.links ≡ some page.important_pages

-- If `parse_html` returns, then its limit is positive; the title has at most 512 characters, the
-- description 2000, each heading 1000, and the preview as many as the limit says, and none of them is
-- an empty text; the addresses are well formed; and the links are an extraction of the document, of
-- which the social links and the important pages are detected.
pub parse_html-IsParsed :
    (py : Python) (html : BeautifulSoup) (text page_url : Text) (root : Option Text) (limit : ℤ)
    (page : ParsedPage)
    → parse_html py html text page_url root limit ≡ ok page
    → (is_below limit 1 ≡ false) × IsParsed py html text page_url root limit page
unfolding parse_html
parse_html-IsParsed py html text page_url root limit page h =
    let soup = html.parse text in
    let (u, positive, h₁) = >>=-eq-ok (raise_if (is_below limit 1) _) _ h in
    let (links, e₁, h₂) =
      >>=-eq-ok (of_url_error py (extract_links py html text page_url root)) _ h₁ in
    let (headings, e₂, h₃) =
      >>=-eq-ok (headings_from py [] (html.find_all soup (heading_names py))) _ h₂ in
    let (emails, e₃, h₄) = >>=-eq-ok (or_raise (extract_emails py html soup) _) _ h₃ in
    let (social, e₄, h₅) = >>=-eq-ok (or_raise (detect_social_links py links) _) _ h₄ in
    let (important, e₅, h₆) = >>=-eq-ok (or_raise (detect_important_pages py links) _) _ h₅ in
    let below = raise_if-eq-ok (is_below limit 1) _ positive in
    let (table, keys, distinct, has, well) =
      extract_emails_lem py html soup emails (or_raise-eq-ok (extract_emails py html soup) _ e₃) in
    (
      below,
      subst (IsParsed py html text page_url root limit) (ok-injective h₆) (record {
        title = title_text-IsShortText py (html.title soup);
        meta_description =
            meta_from-IsShortText py (html.find_all soup (codes "meta" ∷ [])) none tt;
        headings =
            headings_from-HasText py [] (html.find_all soup (heading_names py)) {found = headings}
              tt e₂;
        text_preview =
            visible_text-IsShortText py (html.find_all_strings soup) (pos_part limit)
              (limit_positive limit below);
        emails = subst (All IsEmail) (sym keys) (Dict.keys-All IsEmail table well);
        links =
            extract_links-IsExtraction py html text page_url root links
              (of_url_error-eq-ok py (extract_links py html text page_url root) e₁);
        social_links = or_raise-eq-ok (detect_social_links py links) _ e₄;
        important_pages = or_raise-eq-ok (detect_important_pages py links) _ e₅;
      }),
    )
