-- ===== src/Links/Social/Laws.antt =====
-- Which candidates the loop over the links collects.
use webintel.Prelude.{
  ◌≡◌, refl, ◌∙◌, inl, inr, List, [], ◌∷◌, Option, none, some, Text, pair_Eq, text_Eq, arith,
  Option-cases, true, Any, sym, ap, subst, ◌⊎◌, ◌↔◌, ◌≢◌,
}
use mathlib.Core.Option
use webintel.Prelude.Dict
use webintel.Py.Tables.{Python}
use webintel.Links.{ExtractedLink}
use webintel.Prelude.Dict.{Dict}
use webintel.Links.Social.{
  SocialLinkCandidate, detect_social_links, link_platform, Candidates, add_candidate, add_links,
}
use webintel.Links.Social.Tables.{
  IsProfile, keyed, keyed-values, add_candidate-AreNamed, add_candidate-HasDistinctKeys, IsTable,
  has-add_candidate_sound, has-add_candidate_known, has-add_candidate_profile,
}

module _ (py : Python) where
  -- If the loop over the links ends, then its table has each candidate once, at its own platform and
  -- URL: those it started with, and one for each platform and URL of which a link is a profile.
  add_links_lem :
      (c : Candidates py) (links : List ExtractedLink) (found : Candidates py)
      → IsTable py c
      → add_links py c links ≡ some found
      → IsTable py found
        × ((platform url : Text)
            → (Dict.has found (platform, url) ≡ true)
              ↔ ((Dict.has c (platform, url) ≡ true) ⊎ Any (IsProfile py platform url) links))
  unfolding add_links
  add_links_lem c [] found t e =
      let same : c ≡ found = cc in
      subst
        (λ d.
          IsTable py d
          × ((platform url : Text)
              → (Dict.has d (platform, url) ≡ true) ↔ ((Dict.has c (platform, url) ≡ true) ⊎ ⊥)))
        same (t, λ platform url. ((λ h. inl h), only))
    where
      only : {A : Type 0} → A ⊎ ⊥ → A
      only (inl a) = a
      only (inr b) = absurd b
  add_links_lem c (link ∷ links) found t e = elim (Option-cases (link_platform py link)) [
    | inl n ↦ absurd (ground (arith, rw (add_links, n) at e))
    | inr (p, n) ↦
        let d = add_candidate py c link.normalized_target_url p in
        let (table, has) =
          add_links_lem d links found
            (
              add_candidate-HasDistinctKeys py c link.normalized_target_url p t.0,
              add_candidate-AreNamed py c link.normalized_target_url p t.1,
            )
            (rw (add_links, n) at e) in
        (
          table,
          λ platform url. (
            λ h. elim ((has platform url).0 h) [
              | inr later ↦ inr (inr later)
              | inl k ↦ elim (has-add_candidate_sound py c link p platform url n k) [
                | inl old ↦ inl old
                | inr new ↦ inr (inl new)
              ]
            ],
            λ h. (has platform url).1 (elim h [
              | inl old ↦
                  inl (has-add_candidate_known py c link.normalized_target_url p platform url old)
              | inr (inl new) ↦ inl (has-add_candidate_profile py c link p platform url n new)
              | inr (inr later) ↦ inr later
            ]),
          ),
        )
  ]

map-eq :
    {V : Type 0} {f : V → List SocialLinkCandidate} (o : Option V)
    {found : List SocialLinkCandidate}
    → Option.map f o ≡ some found
    → (a : V) × (o ≡ some a) × (f a ≡ found)
map-eq none h = cc
map-eq (some a) h = (a, refl, cc)

empty_has :
    (platform url : Text)
    → Dict.has {K = Text × Text} {V = SocialLinkCandidate} [] (platform, url) ≢ true
unfolding Dict.has
empty_has platform url h = absurd (ground (arith, h))

-- If `detect_social_links` returns, then no two of its candidates have the same platform and URL,
-- and there is one for a platform and a URL exactly if a link has this normal form, its host is one
-- of the platform, and its path that of a profile there.
pub detect_social_links_lem :
    (py : Python) (links : List ExtractedLink) (found : List SocialLinkCandidate)
    → detect_social_links py links ≡ some found
    → Dict.HasDistinctKeys (keyed py found)
      × ((platform url : Text)
          → (Dict.has (keyed py found) (platform, url) ≡ true)
            ↔ Any (IsProfile py platform url) links)
unfolding detect_social_links
detect_social_links_lem py links found h =
    let (table, ended, values) = map-eq (add_links py [] links) h in
    let ((distinct, named), has) = add_links_lem py [] links table (tt, tt) ended in
    let same : keyed py found ≡ table = ap (keyed py) (sym values) ∙ keyed-values py table named in
    rw same (
      distinct,
      λ platform url. (
        λ k. elim ((has platform url).0 k) [
          | inl e ↦ absurd (empty_has platform url e)
          | inr l ↦ l
        ],
        λ l. (has platform url).1 (inr l),
      ),
    )
