-- ===== src/Links/Social/Tables.antt =====
-- What one link adds to the table of candidates.
use webintel.Prelude.{
  ◌≡◌, refl, ◌∙◌, inl, inr, Bool, ◌||◌, List, [], ◌∷◌, Option, none, some, Text, ◌==◌, pair_Eq,
  text_Eq, arith, true, All, All-append, Bool-cases, sym, ap, ap₂, subst, ◌⊎◌, ==_refl, ◌≢◌, ==_iff,
}
use webintel.Prelude.Dict
use webintel.Py.Tables.{Python}
use webintel.Links.{ExtractedLink}
use webintel.Prelude.Dict.{Dict}
use webintel.Py.Split.{SplitResult, urlsplit, hostname}
use webintel.Links.Social.{
  SocialLinkCandidate, platform_for_host, is_profile_path, profile_platform, host_platform,
  link_platform, Candidates, add_candidate,
}

module _ (py : Python) where
  -- The link has this normal form; its host belongs to the platform, and its path is that of a
  -- profile there.
  pub record IsProfile (platform url : Text) (link : ExtractedLink) : Type 0 where
    pub of_url : link.normalized_target_url ≡ url
    pub parsed : SplitResult
    pub split : urlsplit py link.normalized_target_url ≡ some parsed
    pub host : Text
    pub named : hostname py parsed ≡ some host
    pub of_platform : platform_for_host host ≡ some platform
    pub of_profile : is_profile_path py platform parsed.path ≡ true

  profile_platform-eq :
      (parsed : SplitResult) (o : Option Text) {platform : Text}
      → profile_platform py parsed o ≡ some platform
      → (o ≡ some platform) × (is_profile_path py platform parsed.path ≡ true)
  profile_platform-eq parsed none h = cc
  profile_platform-eq parsed (some q) {platform} h =
      elim (Bool-cases (is_profile_path py q parsed.path)) [
        | inl e ↦
            let same : q ≡ platform = some-injective (rw e at h) in
            (ap some same, subst (λ p. is_profile_path py p parsed.path ≡ true) same e)
        | inr e ↦ absurd (some_ne (rw e at h))
      ]
    where
      some-injective : {a b : Text} → some a ≡ some b → a ≡ b
      some-injective h = cc

      some_ne : {a : Text} → none ≢ some a
      some_ne = cc

  host_platform-eq :
      (parsed : SplitResult) (o : Option Text) {platform : Text}
      → host_platform py parsed o ≡ some platform
      → (host : Text) × (o ≡ some host)
        × (platform_for_host host ≡ some platform)
        × (is_profile_path py platform parsed.path ≡ true)
  host_platform-eq parsed none h = cc
  host_platform-eq parsed (some host) h =
      let (of_platform, of_profile) = profile_platform-eq parsed (platform_for_host host) h in
      (host, refl, of_platform, of_profile)

  -- The platform of a link that the loop keeps.
  link_platform_sound :
      (link : ExtractedLink) (o : Option SplitResult) (platform : Text)
      → urlsplit py link.normalized_target_url ≡ o
      → link_platform py link ≡ some (some platform)
      → IsProfile platform link.normalized_target_url link
  unfolding link_platform
  link_platform_sound link none platform e h = absurd (none_ne (rw (link_platform, e) at h))
    where
      none_ne : none ≢ some (some platform)
      none_ne = cc
  link_platform_sound link (some parsed) platform e h =
      let found = some-injective (rw (link_platform, e) at h) in
      let (host, named, of_platform, of_profile) =
        host_platform-eq parsed (hostname py parsed) found in
      record {
        of_url = refl;
        parsed = parsed;
        split = e;
        host = host;
        named = named;
        of_platform = of_platform;
        of_profile = of_profile;
      }
    where
      some-injective : {a b : Option Text} → some a ≡ some b → a ≡ b
      some-injective h = cc

  link_platform_complete :
      (link : ExtractedLink) (platform url : Text)
      → IsProfile platform url link
      → link_platform py link ≡ some (some platform)
  unfolding link_platform
  link_platform_complete link platform url p =
      rw (link_platform, p.split) (rw (p.named) (rw (p.of_platform) (rw (p.of_profile) refl)))

  -- Each candidate stands at its own platform and URL.
  abbrev AreNamed : Candidates py → Type 0
  AreNamed c =
      All
        (λ (entry : (Text × Text) × SocialLinkCandidate). entry.0 ≡ (entry.1.platform, entry.1.url))
        c

  append-AreNamed :
      (c : Candidates py) (platform url : Text)
      → AreNamed c
      → AreNamed (Dict.set_default c (platform, url) (record { platform = platform; url = url }))
  unfolding Dict.set_default
  append-AreNamed c platform url h = elim (Bool-cases (Dict.has c (platform, url))) [
    | inl old ↦ rw old h
    | inr new ↦ rw new (All-append _ c _ h (refl, tt))
  ]

  -- The candidates again, each at its platform and URL.
  abbrev pub keyed : List SocialLinkCandidate → Dict (Text × Text) SocialLinkCandidate
  keyed [] = []
  keyed (candidate ∷ candidates) =
      ((candidate.platform, candidate.url), candidate) ∷ keyed candidates

  pub keyed-values : (c : Candidates py) → AreNamed c → keyed (Dict.values c) ≡ c
  keyed-values [] h = refl
  keyed-values ((k, v) ∷ c) (e, h) = ap₂ (λ j d. (j, v) ∷ d) (sym e) (keyed-values c h)

  pub add_candidate-AreNamed :
      (c : Candidates py) (url : Text) (found : Option Text)
      → AreNamed c
      → AreNamed (add_candidate py c url found)
  add_candidate-AreNamed c url none h = h
  add_candidate-AreNamed c url (some platform) h = append-AreNamed c platform url h

  pub add_candidate-HasDistinctKeys :
      (c : Candidates py) (u : Text) (found : Option Text)
      → Dict.HasDistinctKeys c
      → Dict.HasDistinctKeys (add_candidate py c u found)
  add_candidate-HasDistinctKeys c u none h = h
  add_candidate-HasDistinctKeys c u (some q) h = Dict.set_default-HasDistinctKeys c (q, u) _ h

  -- What is known of a table: it has distinct keys and named candidates.
  abbrev pub IsTable : Candidates py → Type 0
  IsTable c = Dict.HasDistinctKeys c × AreNamed c

  or-cases : (a b : Bool) → (a || b) ≡ true → (b ≡ true) ⊎ (a ≡ true)
  or-cases a b h = ground arith

  pub has-add_candidate_sound :
      (c : Candidates py) (link : ExtractedLink) (found : Option Text) (platform url : Text)
      → link_platform py link ≡ some found
      → Dict.has (add_candidate py c link.normalized_target_url found) (platform, url) ≡ true
      → (Dict.has c (platform, url) ≡ true) ⊎ IsProfile platform url link
  has-add_candidate_sound c link none platform url h k = inl k
  has-add_candidate_sound c link (some p) platform url h k =
      let u = link.normalized_target_url in
      elim (or-cases (◌==◌ {T = Text × Text} (p, u) (platform, url)) (Dict.has c (platform, url))
        (sym (Dict.has-set_default c (p, u) (platform, url) _) ∙ k)) [
          | inl old ↦ inl old
          | inr new ↦
              let same = (==_iff {A = Text × Text} (p, u) (platform, url)).0 new in
              inr (
                subst (λ (k : Text × Text). IsProfile k.0 k.1 link) same
                  (link_platform_sound link (urlsplit py u) p refl h))
        ]

  has-set_default-new :
      (c : Candidates py) (k : Text × Text) (v : SocialLinkCandidate)
      → Dict.has (Dict.set_default c k v) k ≡ true
  has-set_default-new c k v =
      Dict.has-set_default c k k v ∙ ap (λ b. b || Dict.has c k) (==_refl {A = Text × Text} k)

  pub has-add_candidate_known :
      (c : Candidates py) (u : Text) (found : Option Text) (platform url : Text)
      → Dict.has c (platform, url) ≡ true
      → Dict.has (add_candidate py c u found) (platform, url) ≡ true
  has-add_candidate_known c u none platform url h = h
  has-add_candidate_known c u (some p) platform url h =
      Dict.has-set_default c (p, u) (platform, url) _
      ∙ ap (λ b. ◌==◌ {T = Text × Text} (p, u) (platform, url) || b) h
      ∙ or-true (◌==◌ {T = Text × Text} (p, u) (platform, url))
    where
      or-true : (b : Bool) → (b || true) ≡ true
      or-true b = ground arith

  pub has-add_candidate_profile :
      (c : Candidates py) (link : ExtractedLink) (found : Option Text) (platform url : Text)
      → link_platform py link ≡ some found
      → IsProfile platform url link
      → Dict.has (add_candidate py c link.normalized_target_url found) (platform, url) ≡ true
  has-add_candidate_profile c link found platform url h p =
      let same : some platform ≡ found =
        some-injective (sym (link_platform_complete link platform url p) ∙ h) in
      subst (λ f. Dict.has (add_candidate py c link.normalized_target_url f) (platform, url) ≡ true)
        same
        (subst
          (λ u.
            Dict.has (add_candidate py c link.normalized_target_url (some platform)) (platform, u)
            ≡ true)
          p.of_url (has-set_default-new c (platform, link.normalized_target_url) _))
    where
      some-injective : {a b : Option Text} → some a ≡ some b → a ≡ b
      some-injective h = cc
