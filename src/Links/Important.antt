-- ===== src/Links/Important.antt =====
-- app/services/crawler/important_page_detector.py. A confidence is a number of hundredths.
use webintel.Prelude.{
  ℕ, Bool, true, false, not, ◌&&◌, ◌||◌, List, [], ◌∷◌, ◌++◌, Option, none, some, Text, codes, any,
  keep, is_empty, contains, last?, map, ltb, ◌==◌, Eq, pair_Eq, text_Eq, nat_Eq, if◌then◌else◌, ◌≡◌,
  ◌↔◌, arith, nat_eq, nat_eq_iff,
}
use mathlib.Core.Option
use webintel.Prelude.Dict
use webintel.Prelude.Dict.{Dict}
use webintel.Py.Str.{strip, is_space, split, is_digit, is_lower}
use webintel.Py.Tables.{Python}
use webintel.Py.Split.{SplitResult, urlsplit}
use webintel.Links.{ExtractedLink}
pub mod Best

-- ImportantPageType
pub data ImportantPageType : Type 0 where
  pricing careers blog contact about docs login signup terms privacy : ImportantPageType

abbrev pub page_type_number : ImportantPageType → ℕ
page_type_number pricing = 0
page_type_number careers = 1
page_type_number blog = 2
page_type_number contact = 3
page_type_number about = 4
page_type_number docs = 5
page_type_number login = 6
page_type_number signup = 7
page_type_number terms = 8
page_type_number privacy = 9

abbrev pub page_type_eq : ImportantPageType → ImportantPageType → Bool
page_type_eq a b = nat_eq (page_type_number a) (page_type_number b)

pub page_type_eq_iff : (a b : ImportantPageType) → (page_type_eq a b ≡ true) ↔ (a ≡ b)
page_type_eq_iff a b = ground arith

instance abbrev pub page_type_Eq : Eq ImportantPageType
page_type_Eq = record { equal = page_type_eq; equal_iff = page_type_eq_iff }

-- PAGE_KEYWORDS
abbrev pub page_keywords : List (ImportantPageType × List Text)
page_keywords =
    (pricing, codes "pricing" ∷ codes "plans" ∷ [])
    ∷ (careers, codes "careers" ∷ codes "jobs" ∷ codes "vacancies" ∷ [])
    ∷ (blog, codes "blog" ∷ codes "news" ∷ codes "insights" ∷ [])
    ∷ (contact, codes "contact" ∷ codes "contact-us" ∷ [])
    ∷ (about, codes "about" ∷ codes "about-us" ∷ codes "company" ∷ [])
    ∷ (docs, codes "docs" ∷ codes "documentation" ∷ codes "developers" ∷ [])
    ∷ (login, codes "login" ∷ codes "log-in" ∷ codes "signin" ∷ codes "sign-in" ∷ [])
    ∷ (signup, codes "signup" ∷ codes "sign-up" ∷ codes "register" ∷ [])
    ∷ (terms, codes "terms" ∷ codes "terms-of-service" ∷ codes "terms-of-use" ∷ [])
    ∷ (privacy, codes "privacy" ∷ codes "privacy-policy" ∷ [])
    ∷ []

pub record ImportantPageCandidate : Type 0 where
  pub page_type : ImportantPageType
  pub url : Text
  pub confidence : ℕ

-- re.findall(r"[a-z0-9]+", s): `w` is the run so far.
abbrev is_token_char : ℕ → Bool
is_token_char c = is_lower c || is_digit c

abbrev end_run : Text → List Text → List Text
end_run [] runs = runs
end_run (c ∷ w) runs = (c ∷ w) ∷ runs

find_runs : Text → Text → List Text
find_runs w [] = end_run w []
find_runs w (c ∷ s) =
    let longer = find_runs (w ++ c ∷ []) s in
    let later = end_run w (find_runs [] s) in if is_token_char c then longer else later

-- re.sub(r"\s+", "-", s): was the last character a space?
dash_spaces : Bool → Text → Text
dash_spaces in_run [] = []
dash_spaces in_run (c ∷ s) =
    let rest = dash_spaces (is_space c) s in
    if is_space c then (if in_run then rest else b'-' ∷ rest) else c ∷ rest

module _ (py : Python) where
  -- _tokens, the set as a list of its elements
  abbrev tokens_of : Text → List Text
  unfolding find_runs dash_spaces
  tokens_of lowered =
      if is_empty lowered then [] else dash_spaces false lowered ∷ find_runs [] lowered

  unfoldable pub tokens : Text → List Text
  unfolding tokens_of strip is_space
  tokens value = tokens_of (strip is_space (py.lower value))

  abbrev path_segments : SplitResult → List Text
  unfolding split
  path_segments parsed =
      map (λ segment. py.lower (py.unquote segment))
        (keep (λ segment. not (is_empty segment)) (split b'/' parsed.path))

  abbrev last_in : Option Text → List Text → Bool
  last_in none keywords = false
  last_in (some segment) keywords = contains keywords segment

  abbrev text_matches : Option Text → List Text → Bool
  unfolding tokens
  text_matches none keywords = false
  text_matches (some text) keywords =
      not (is_empty text) && any (λ token. contains keywords token) (tokens text)

  abbrev pub confidence_of : Bool → Bool → ℕ
  confidence_of true true = 99
  confidence_of true false = 95
  confidence_of false true = 80
  confidence_of false false = 0

  -- _confidence; `none` is the ValueError of urlsplit
  unfoldable pub confidence : ExtractedLink → List Text → Option ℕ
  unfolding path_segments text_matches
  confidence link keywords =
      Option.map
        (λ parsed.
          confidence_of (last_in (last? (path_segments parsed)) keywords)
            (text_matches link.link_text keywords))
        (urlsplit py link.normalized_target_url)

  abbrev pub Candidates : Type 0
  Candidates = Dict (ImportantPageType × Text) ImportantPageCandidate

  -- `existing is None or confidence > existing.confidence`
  abbrev pub is_better : ℕ → Option ImportantPageCandidate → Bool
  is_better n none = true
  is_better n (some existing) = ltb existing.confidence n

  abbrev pub offer : Candidates → ImportantPageType → Text → ℕ → Candidates
  offer candidates page_type url n =
      if n == 0
      then candidates
      else if is_better n (Dict.get candidates (page_type, url))
      then Dict.set candidates (page_type, url)
          (record { page_type = page_type; url = url; confidence = n })
      else candidates

  -- The loop over the types of pages, for one link.
  unfoldable pub offer_types :
      Candidates → ExtractedLink → List (ImportantPageType × List Text) → Option Candidates
  offer_types candidates link [] = some candidates
  offer_types candidates link ((page_type, keywords) ∷ rest) = elim (confidence link keywords) [
    | none ↦ none
    | some n ↦ offer_types (offer candidates page_type link.normalized_target_url n) link rest
  ]

  -- `if not link.is_internal: continue`
  abbrev pub offer_link : Candidates → ExtractedLink → Bool → Option Candidates
  offer_link candidates link true = offer_types candidates link page_keywords
  offer_link candidates link false = some candidates

  -- The loop over the links.
  unfoldable pub offer_links : Candidates → List ExtractedLink → Option Candidates
  unfolding offer_types
  offer_links candidates [] = some candidates
  offer_links candidates (link ∷ links) = elim (offer_link candidates link link.is_internal) [
    | none ↦ none
    | some more ↦ offer_links more links
  ]

  -- detect_important_pages
  unfoldable pub detect_important_pages : List ExtractedLink → Option (List ImportantPageCandidate)
  unfolding offer_links
  detect_important_pages links = Option.map Dict.values (offer_links [] links)
