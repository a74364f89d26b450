-- ===== src/Links/Extract/Laws.antt =====
-- Which links `extract_links` returns.
use webintel.Prelude.{
  ◌≡◌, refl, ap, sym, ◌∙◌, inl, inr, true, false, List, [], ◌∷◌, Option, none, some, Text, ◌==◌,
  text_Eq, text_eq_iff, if◌then◌else◌, Bool-cases, is_some, arith,
}
use webintel.Prelude.Dict
use webintel.Prelude.Result.{Result, ok, err, >>=-eq-ok, ok-injective}
use webintel.Py.Tables.{Python}
use webintel.Url.Errors.{UrlError, is_normalization_error}
use webintel.Url.Normalize.{normalize_url}
use webintel.Url.Scope.{CrawlScope}
use webintel.Html.{Element}
use webintel.Links.{ExtractedLink}
use webintel.Links.Extract.{
  anchor_href, LinksByUrl, new_link, add_target, add_normalized, add_href, add_anchors,
}

abbrev pub or_else {ℓ} : {A : Type ℓ} → Option A → Option A → Option A
or_else none b = b
or_else (some a) b = some a

or_else_assoc {ℓ} :
    {A : Type ℓ} (a b c : Option A) → or_else (or_else a b) c ≡ or_else a (or_else b c)
or_else_assoc none b c = refl
or_else_assoc (some a) b c = refl

abbrev pub ok_of : Result UrlError ExtractedLink → Option ExtractedLink
ok_of (ok link) = some link
ok_of (err e) = none

module _ (py : Python) (scope : CrawlScope) (base : Text) where
  abbrev pub link_of_normalized :
      Text → Element → Text → Result UrlError Text → Option ExtractedLink
  link_of_normalized url anchor href (err e) = none
  link_of_normalized url anchor href (ok v) =
      if v == url then ok_of (new_link py scope base anchor href v) else none

  abbrev pub link_of_href : Text → Element → Option Text → Option ExtractedLink
  link_of_href url anchor none = none
  link_of_href url anchor (some href) =
      link_of_normalized url anchor href (normalize_url py href (some base) false)

  -- The link of the first anchor whose href normalises to the URL.
  abbrev pub first_link : Text → List Element → Option ExtractedLink
  first_link url [] = none
  first_link url (anchor ∷ anchors) =
      or_else (link_of_href url anchor (anchor_href py anchor)) (first_link url anchors)

  -- The URLs are distinct, each has the link of its first anchor.
  abbrev pub HoldsFirst : LinksByUrl py → List Element → LinksByUrl py → Type 0
  HoldsFirst d anchors d' =
      Dict.HasDistinctKeys d'
      × ((url : Text) → Dict.get d' url ≡ or_else (Dict.get d url) (first_link url anchors))

  kept_get :
      (o : Option ExtractedLink) (url v : Text) (fresh : Option ExtractedLink)
      → (url ≡ v → is_some o ≡ true)
      → o ≡ or_else o (if v == url then fresh else none)
  kept_get (some l) url v fresh h = refl
  kept_get none url v fresh h = ground (arith, text_eq_iff v url, h)

  set_get :
      (o : Option ExtractedLink) (url v : Text) (link : ExtractedLink)
      → (url ≡ v → o ≡ none)
      → (if v == url then some link else o) ≡ or_else o (if v == url then some link else none)
  set_get (some l) url v link h = ground (arith, text_eq_iff v url, h)
  set_get none url v link h = refl

  add_target-get :
      (d : LinksByUrl py) (anchor : Element) (href v : Text) {d' : LinksByUrl py}
      → Dict.HasDistinctKeys d
      → add_target py scope base d anchor href v ≡ ok d'
      → Dict.HasDistinctKeys d'
        × ((url : Text)
            → Dict.get d' url
              ≡ or_else
                  (Dict.get d url)
                  (if v == url then ok_of (new_link py scope base anchor href v) else none))
  add_target-get d anchor href v {d'} h e = elim (Bool-cases (Dict.has d v)) [
    | inl old ↦
        let same : d ≡ d' = ok-injective (rw old at e) in
        rw (← same) (
          h,
          λ url.
              kept_get (Dict.get d url) url v (ok_of (new_link py scope base anchor href v))
                (λ u. ap (λ w. is_some (Dict.get d w)) u ∙ sym (Dict.has-eq-is_some d v) ∙ old),
        )
    | inr new ↦
        let (link, made, stored) =
          >>=-eq-ok (new_link py scope base anchor href v) _ (rw new at e) in
        let same : Dict.set d v link ≡ d' = ok-injective stored in
        rw (← same) (
          Dict.set-HasDistinctKeys d v link h,
          λ url.
              Dict.get-set d v url link
              ∙ rw made (
                  set_get (Dict.get d url) url v link (λ u.
                    ap (Dict.get d) u
                    ∙ none_of_not (Dict.get d v) (sym (Dict.has-eq-is_some d v) ∙ new))),
        )
  ]
    where
      none_of_not : (o : Option ExtractedLink) → is_some o ≡ false → o ≡ none
      none_of_not none k = refl
      none_of_not (some l) k = cc

  or_else-none : (o : Option ExtractedLink) → o ≡ or_else o none
  or_else-none none = refl
  or_else-none (some l) = refl

  add_normalized-get :
      (d : LinksByUrl py) (anchor : Element) (href : Text) (m : Result UrlError Text)
      {d' : LinksByUrl py}
      → Dict.HasDistinctKeys d
      → add_normalized py scope base d anchor href m ≡ ok d'
      → Dict.HasDistinctKeys d'
        × ((url : Text)
            → Dict.get d' url ≡ or_else (Dict.get d url) (link_of_normalized url anchor href m))
  add_normalized-get d anchor href (ok v) h e = add_target-get d anchor href v h e
  add_normalized-get d anchor href (err x) {d'} h e = elim (Bool-cases (is_normalization_error x)) [
    | inl caught ↦
        let same : d ≡ d' = ok-injective (rw caught at e) in
        rw (← same) (h, λ url. or_else-none (Dict.get d url))
    | inr raised ↦ absurd (ground (arith, rw raised at e))
  ]

  add_href-get :
      (d : LinksByUrl py) (anchor : Element) (o : Option Text) {d' : LinksByUrl py}
      → Dict.HasDistinctKeys d
      → add_href py scope base d anchor o ≡ ok d'
      → Dict.HasDistinctKeys d'
        × ((url : Text) → Dict.get d' url ≡ or_else (Dict.get d url) (link_of_href url anchor o))
  add_href-get d anchor none {d'} h e =
      let same : d ≡ d' = ok-injective e in rw (← same) (h, λ url. or_else-none (Dict.get d url))
  add_href-get d anchor (some href) h e =
      add_normalized-get d anchor href (normalize_url py href (some base) false) h e

  pub add_anchors-HoldsFirst :
      (d : LinksByUrl py) (anchors : List Element) {d' : LinksByUrl py}
      → Dict.HasDistinctKeys d
      → add_anchors py scope base d anchors ≡ ok d'
      → HoldsFirst d anchors d'
  unfolding add_anchors
  add_anchors-HoldsFirst d [] {d'} h e =
      let same : d ≡ d' = ok-injective e in rw (← same) (h, λ url. or_else-none (Dict.get d url))
  add_anchors-HoldsFirst d (anchor ∷ anchors) {d'} h e =
      let (more, step, rest) =
        >>=-eq-ok (add_href py scope base d anchor (anchor_href py anchor)) _ e in
      let (distinct, here) = add_href-get d anchor (anchor_href py anchor) {d' = more} h step in
      let (distinct', later) = add_anchors-HoldsFirst more anchors {d' = d'} distinct rest in
      (
        distinct',
        λ url.
            later url
            ∙ ap (λ o. or_else o (first_link url anchors)) (here url)
            ∙ or_else_assoc (Dict.get d url) (link_of_href url anchor (anchor_href py anchor))
                (first_link url anchors),
      )
