-- ===== src/Samples/LinksTests.antt =====
-- The theorems on links at sample links.
use webintel.Prelude.{
  Any, true, ◌↔◌, ◌≡◌, refl, false, List, [], ◌∷◌, none, Text, codes, pair_Eq, text_Eq, text_eq,
}
use webintel.Prelude.Dict
use webintel.Py.Split.{urlsplit, hostname}
use webintel.Py.Str.{lower_char, starts_with, ends_with}
use webintel.Links.{ExtractedLink}
use webintel.Links.Social.{
  SocialLinkCandidate, detect_social_links, add_links, link_platform, platform_for_host,
  is_profile_path,
}
use webintel.Links.Social.Tables.{keyed, IsProfile}
use webintel.Links.Social.Laws.{detect_social_links_lem}
use webintel.Samples.{sample_python, start_url}

abbrev profile_url : Text
profile_url = codes "https://github.com/acme"

abbrev link_to : Text → ExtractedLink
link_to url = record {
  target_url = url;
  normalized_target_url = url;
  link_text = none;
  is_internal = false;
}

abbrev sample_links : List ExtractedLink
sample_links = link_to profile_url ∷ link_to start_url ∷ link_to profile_url ∷ []

abbrev sample_candidates : List SocialLinkCandidate
sample_candidates = record { platform = codes "github"; url = profile_url } ∷ []

detect_social_links_lem_example :
    Dict.HasDistinctKeys (keyed sample_python sample_candidates)
    × ((platform url : Text)
        → (Dict.has (keyed sample_python sample_candidates) (platform, url) ≡ true)
          ↔ Any (IsProfile sample_python platform url) sample_links)
unfolding detect_social_links add_links link_platform platform_for_host is_profile_path starts_with
    urlsplit hostname sample_python text_eq lower_char Dict.set_default Dict.has ends_with
detect_social_links_lem_example =
    detect_social_links_lem sample_python sample_links sample_candidates refl
