-- ===== src/Links/Important/Best.antt =====
-- Which important pages are found, and how sure: the best confidence of the internal links.
use webintel.Prelude.{
  ℕ, ◌≡◌, ◌<◌, refl, ap, sym, ◌∙◌, subst, inl, inr, Bool, true, false, List, [], ◌∷◌, Option, none,
  some, Text, max, ◌==◌, ==_iff, pair_Eq, text_Eq, nat_Eq, if◌then◌else◌, Bool-cases, Option-cases,
  arith,
}
use webintel.Prelude.Dict
use webintel.Py.Tables.{Python}
use webintel.Links.{ExtractedLink}
use webintel.Links.Important.{
  ImportantPageType, page_type_Eq, page_keywords, ImportantPageCandidate, confidence, Candidates,
  is_better, offer, offer_types, offer_link, offer_links, detect_important_pages,
}

abbrev pub Key : Type 0
Key = ImportantPageType × Text

-- The confidence of a candidate, 0 for none.
abbrev pub score : Option ImportantPageCandidate → ℕ
score none = 0
score (some c) = c.confidence

abbrev or_zero : Option ℕ → ℕ
or_zero none = 0
or_zero (some n) = n

abbrev hit : Key → Key → ℕ → ℕ
hit k j n = if k == j then n else 0

module _ (py : Python) where
  -- The best confidence that the key gets from the types of a link, and from the internal links.
  abbrev pub best_of_types : Key → ExtractedLink → List (ImportantPageType × List Text) → ℕ
  best_of_types k link [] = 0
  best_of_types k link ((page_type, keywords) ∷ rest) =
      max (hit (page_type, link.normalized_target_url) k (or_zero (confidence py link keywords)))
        (best_of_types k link rest)

  abbrev pub best_of_links : Key → List ExtractedLink → ℕ
  best_of_links k [] = 0
  best_of_links k (link ∷ links) =
      max (if link.is_internal then best_of_types k link page_keywords else 0)
        (best_of_links k links)

  -- Each candidate stands under its own key, with a confidence that is not 0.
  abbrev pub IsKeyed : Candidates py → Type 0
  IsKeyed d =
      (k : Key) (c : ImportantPageCandidate)
      → Dict.get d k ≡ some c
      → (c.page_type ≡ k.0) × (c.url ≡ k.1) × (0 < c.confidence)

  abbrev Offered : Candidates py → (Key → ℕ) → Candidates py → Type 0
  Offered d best d' =
      IsKeyed d'
      × Dict.HasDistinctKeys d'
      × ((k : Key) → score (Dict.get d' k) ≡ max (score (Dict.get d k)) (best k))

  max_of_better :
      (b : Bool) (n : ℕ) (o : Option ImportantPageCandidate) (c : ImportantPageCandidate)
      → (b ≡ true → is_better py n o ≡ true)
      → c.confidence ≡ n
      → score (if b then some c else o) ≡ max (score o) (if b then n else 0)
  max_of_better true n none c h e = ground (arith, e)
  max_of_better true n (some d) c h e = ground (arith, e, h refl)
  max_of_better false n o c h e = omega arith

  max_of_worse :
      (b : Bool) (n : ℕ) (o : Option ImportantPageCandidate)
      → (b ≡ true → is_better py n o ≡ false)
      → score o ≡ max (score o) (if b then n else 0)
  max_of_worse true n none h = absurd (ground (arith, h refl))
  max_of_worse true n (some d) h = ground (arith, h refl)
  max_of_worse false n o h = omega arith

  entry_keyed :
      (b : Bool) (k j : Key) (c l : ImportantPageCandidate) (o : Option ImportantPageCandidate)
      → (b ≡ true → k ≡ j)
      → (c.page_type ≡ k.0) × (c.url ≡ k.1) × (0 < c.confidence)
      → (o ≡ some l → (l.page_type ≡ j.0) × (l.url ≡ j.1) × (0 < l.confidence))
      → (if b then some c else o) ≡ some l
      → (l.page_type ≡ j.0) × (l.url ≡ j.1) × (0 < l.confidence)
  entry_keyed true k j c l o same h g e =
      let p : k ≡ j = same refl in
      let q : c ≡ l = cc in
      subst (λ i. (l.page_type ≡ i.0) × (l.url ≡ i.1) × (0 < l.confidence)) p
        (subst
          (λ (a : ImportantPageCandidate). (a.page_type ≡ k.0) × (a.url ≡ k.1) × (0 < a.confidence))
          q h)
  entry_keyed false k j c l o same h g e = g e

  offer-Offered :
      (d : Candidates py) (t : ImportantPageType) (url : Text) (n : ℕ)
      → IsKeyed d
      → Dict.HasDistinctKeys d
      → Offered d (λ k. hit (t, url) k n) (offer py d t url n)
  offer-Offered d t url n h g = elim (Bool-cases (n == 0)) [
    | inl zero_n ↦ rw zero_n (h, g, λ k. ground arith)
    | inr some_n ↦ elim (Bool-cases (is_better py n (Dict.get d (t, url)))) [
      | inl better ↦
          rw (some_n, better)
            (
              λ k c e.
                  entry_keyed ((t, url) == k) (t, url) k _ c (Dict.get d k) ((==_iff (t, url) k).0)
                    (refl, refl, ground arith) (h k c) (sym (Dict.get-set d (t, url) k _) ∙ e),
              Dict.set-HasDistinctKeys d (t, url) _ g,
              λ k.
                  ap score (Dict.get-set d (t, url) k _)
                  ∙ max_of_better ((t, url) == k) n (Dict.get d k) _
                      (λ b.
                        ap (λ j. is_better py n (Dict.get d j)) (sym ((==_iff (t, url) k).0 b))
                        ∙ better)
                      refl,
            )
      | inr worse ↦
          rw (some_n, worse)
            (
              h,
              g,
              λ k. max_of_worse ((t, url) == k) n (Dict.get d k) (λ b.
                  ap (λ j. is_better py n (Dict.get d j)) (sym ((==_iff (t, url) k).0 b)) ∙ worse),
            )
    ]
  ]

  max_assoc : (a b c : ℕ) → max (max a b) c ≡ max a (max b c)
  max_assoc a b c = omega arith

  Offered-trans :
      (d d' d'' : Candidates py) (f g : Key → ℕ)
      → Offered d f d'
      → Offered d' g d''
      → Offered d (λ k. max (f k) (g k)) d''
  Offered-trans d d' d'' f g (h₁, h₂, h₃) (k₁, k₂, k₃) = (
    k₁,
    k₂,
    λ k. k₃ k ∙ ap (λ n. max n (g k)) (h₃ k) ∙ max_assoc (score (Dict.get d k)) (f k) (g k),
  )

  Offered-none : (d : Candidates py) → IsKeyed d → Dict.HasDistinctKeys d → Offered d (λ k. 0) d
  Offered-none d h g = (h, g, λ k. omega arith)

  offer_types-Offered :
      (d : Candidates py) (link : ExtractedLink) (types : List (ImportantPageType × List Text))
      {d' : Candidates py}
      → IsKeyed d
      → Dict.HasDistinctKeys d
      → offer_types py d link types ≡ some d'
      → Offered d (λ k. best_of_types k link types) d'
  unfolding offer_types
  offer_types-Offered d link [] {d'} h g e =
      let same : d ≡ d' = cc in subst (Offered d (λ k. 0)) same (Offered-none d h g)
  offer_types-Offered d link ((t, keywords) ∷ rest) {d'} h g e =
      elim (Option-cases (confidence py link keywords)) [
        | inl n ↦ absurd (ground (arith, rw (offer_types, n) at e))
        | inr (n, found) ↦
            let url = link.normalized_target_url in
            let (h₁, g₁, k₁) = offer-Offered d t url n h g in
            let later =
              offer_types-Offered (offer py d t url n) link rest {d' = d'} h₁ g₁
                (rw (offer_types, found) at e) in
            rw found (
              Offered-trans d (offer py d t url n) d' (λ k. hit (t, url) k n)
                (λ k. best_of_types k link rest) (h₁, g₁, k₁) later)
      ]

  offer_link-Offered :
      (d : Candidates py) (link : ExtractedLink) (internal : Bool) {d' : Candidates py}
      → IsKeyed d
      → Dict.HasDistinctKeys d
      → offer_link py d link internal ≡ some d'
      → Offered d (λ k. if internal then best_of_types k link page_keywords else 0) d'
  offer_link-Offered d link true h g e = offer_types-Offered d link page_keywords h g e
  offer_link-Offered d link false {d'} h g e =
      let same : d ≡ d' = cc in subst (Offered d (λ k. 0)) same (Offered-none d h g)

  offer_links-Offered :
      (d : Candidates py) (links : List ExtractedLink) {d' : Candidates py}
      → IsKeyed d
      → Dict.HasDistinctKeys d
      → offer_links py d links ≡ some d'
      → Offered d (λ k. best_of_links k links) d'
  unfolding offer_links
  offer_links-Offered d [] {d'} h g e =
      let same : d ≡ d' = cc in subst (Offered d (λ k. 0)) same (Offered-none d h g)
  offer_links-Offered d (link ∷ links) {d'} h g e =
      elim (Option-cases (offer_link py d link link.is_internal)) [
        | inl n ↦ absurd (ground (arith, rw (offer_links, n) at e))
        | inr (more, found) ↦
            let (h₁, g₁, k₁) = offer_link-Offered d link link.is_internal {d' = more} h g found in
            let later =
              offer_links-Offered more links {d' = d'} h₁ g₁ (rw (offer_links, found) at e) in
            Offered-trans d more d'
              (λ k. if link.is_internal then best_of_types k link page_keywords else 0)
              (λ k. best_of_links k links) (h₁, g₁, k₁) later
      ]

-- If `detect_important_pages` returns, then its candidates are the values of a table with distinct
-- keys. A candidate stands under its own page type and URL and has a confidence above 0; under each
-- page type and URL the confidence is the best that an internal link with this URL reaches (there is
-- no candidate where none reaches any).
pub detect_important_pages-best :
    (py : Python) (links : List ExtractedLink) (found : List ImportantPageCandidate)
    → detect_important_pages py links ≡ some found
    → (table : Candidates py) × (found ≡ Dict.values table)
      × Dict.HasDistinctKeys table
      × IsKeyed py table
      × ((k : Key) → score (Dict.get table k) ≡ best_of_links py k links)
unfolding detect_important_pages Dict.get
detect_important_pages-best py links found h = elim (Option-cases (offer_links py [] links)) [
  | inl n ↦ absurd (ground (arith, rw (n) at h))
  | inr (table, e) ↦
      let (keyed, distinct, best) =
        offer_links-Offered py [] links {d' = table} (λ k c q. absurd (ground (arith, q))) tt e in
      (table, ground (arith, rw e at h), distinct, keyed, λ k. best k ∙ omega arith)
]
