-- ===== src/Links/Social.antt =====
-- app/services/crawler/social_link_detector.py
use webintel.Prelude.{
  ◌≡◌, refl, ◌∙◌, inl, inr, Bool, true, false, not, ◌&&◌, ◌||◌, List, [], ◌∷◌, ◌++◌, Option, none,
  some, Text, codes, any, is_empty, ◌==◌, pair_Eq, text_Eq, if◌then◌else◌, arith,
}
use mathlib.Core.Option
use webintel.Prelude.Dict
use webintel.Prelude.Dict.{Dict}
use webintel.Py.Str.{remove_prefix, ends_with, starts_with}
use webintel.Py.Tables.{Python}
use webintel.Py.Split.{SplitResult, urlsplit, hostname}
use webintel.Links.{ExtractedLink}
pub mod Tables
pub mod Laws

abbrev pub social_domains : List (Text × List Text)
social_domains =
    (codes "facebook", codes "facebook.com" ∷ [])
    ∷ (codes "github", codes "github.com" ∷ [])
    ∷ (codes "instagram", codes "instagram.com" ∷ [])
    ∷ (codes "linkedin", codes "linkedin.com" ∷ [])
    ∷ (codes "tiktok", codes "tiktok.com" ∷ [])
    ∷ (codes "twitter", codes "twitter.com" ∷ codes "x.com" ∷ [])
    ∷ (codes "youtube", codes "youtube.com" ∷ codes "youtu.be" ∷ [])
    ∷ []

abbrev pub share_path_prefixes : List Text
share_path_prefixes =
    codes "/dialog/share"
    ∷ codes "/intent/"
    ∷ codes "/share"
    ∷ codes "/sharer"
    ∷ codes "/sharing/"
    ∷ []

pub record SocialLinkCandidate : Type 0 where
  pub platform : Text
  pub url : Text

abbrev is_of_domain : Text → Text → Bool
is_of_domain hostname domain = hostname == domain || ends_with hostname (b'.' ∷ domain)

abbrev first_platform : Text → List (Text × List Text) → Option Text
first_platform hostname [] = none
first_platform hostname ((platform, domains) ∷ rest) =
    if any (is_of_domain hostname) domains then some platform else first_platform hostname rest

-- _platform_for_host
unfoldable pub platform_for_host : Text → Option Text
unfolding remove_prefix
platform_for_host hostname =
    first_platform (remove_prefix (remove_prefix hostname (codes "www.")) (codes "m."))
      social_domains

module _ (py : Python) where
  -- _is_profile_path
  unfoldable pub is_profile_path : Text → Text → Bool
  is_profile_path platform path =
      let lowered = py.lower path in
      if is_empty lowered || lowered == codes "/" || any (starts_with lowered) share_path_prefixes
      then false
      else not (
          platform == codes "youtube"
          && any (starts_with lowered) (codes "/watch" ∷ codes "/shorts/" ∷ codes "/results" ∷ []))

  -- The platform of the link, unless the loop continues with the next one.
  abbrev profile_platform : SplitResult → Option Text → Option Text
  profile_platform parsed none = none
  profile_platform parsed (some platform) =
      if is_profile_path platform parsed.path then some platform else none

  abbrev host_platform : SplitResult → Option Text → Option Text
  host_platform parsed none = none
  host_platform parsed (some host) = profile_platform parsed (platform_for_host host)

  -- `none` is the ValueError of urlsplit.
  unfoldable pub link_platform : ExtractedLink → Option (Option Text)
  unfolding platform_for_host is_profile_path
  link_platform link = elim (urlsplit py link.normalized_target_url) [
    | none ↦ none
    | some parsed ↦ some (host_platform parsed (hostname py parsed))
  ]

  abbrev pub Candidates : Type 0
  Candidates = Dict (Text × Text) SocialLinkCandidate

  abbrev pub add_candidate : Candidates → Text → Option Text → Candidates
  add_candidate candidates url none = candidates
  add_candidate candidates url (some platform) =
      Dict.set_default candidates (platform, url) (record { platform = platform; url = url })

  -- The loop over the links.
  unfoldable pub add_links : Candidates → List ExtractedLink → Option Candidates
  add_links candidates [] = some candidates
  add_links candidates (link ∷ links) = elim (link_platform link) [
    | none ↦ none
    | some platform ↦ add_links (add_candidate candidates link.normalized_target_url platform) links
  ]

  -- detect_social_links
  unfoldable pub detect_social_links : List ExtractedLink → Option (List SocialLinkCandidate)
  unfolding add_links
  detect_social_links links = Option.map Dict.values (add_links [] links)
