-- ===== src/Parsing/Emails.antt =====
-- app/services/crawler/email_extractor.py
use webintel.Prelude.{
  ℕ, zero, suc, ◌-◌, Bool, true, false, not, ◌&&◌, ◌||◌, List, [], ◌∷◌, ◌++◌, Option, none, some,
  Text, codes, is_empty, all, contains, last?, length, leb, ltb, ◌==◌, nat_Eq, text_Eq,
  if◌then◌else◌,
}
use mathlib.Core.Option
use webintel.Prelude.Dict
use webintel.Prelude.Dict.{Dict}
use webintel.Py.Str.{
  strip, rstrip, split, rpartition, count, cons_first, starts_with, ends_with, has_sub, is_alnum,
}
use webintel.Py.Tables.{Python}
use webintel.Py.Split.{urlsplit}
use webintel.Url.Host.{is_dns_label}
use webintel.Html.{Attribute, Element, TextNode, BeautifulSoup, as_str}
pub mod Address
pub mod Found

abbrev pub asset_tlds : List Text
asset_tlds =
    codes "avif"
    ∷ codes "css"
    ∷ codes "gif"
    ∷ codes "ico"
    ∷ codes "jpeg"
    ∷ codes "jpg"
    ∷ codes "js"
    ∷ codes "png"
    ∷ codes "svg"
    ∷ codes "webp"
    ∷ codes "woff"
    ∷ codes "woff2"
    ∷ []

abbrev pub non_visible_tags : List Text
non_visible_tags = codes "script" ∷ codes "style" ∷ codes "noscript" ∷ codes "template" ∷ []

-- The classes [a-zA-Z0-9_.+-] and [a-zA-Z0-9-] of EMAIL_PATTERN.
abbrev pub is_local_char : ℕ → Bool
is_local_char c = is_alnum c || c == b'_' || c == b'.' || c == b'+' || c == b'-'

abbrev pub is_domain_char : ℕ → Bool
is_domain_char c = is_alnum c || c == b'-'

abbrev starts_label : Text → Bool
starts_label [] = false
starts_label (c ∷ s) = is_domain_char c

-- The longest [a-zA-Z0-9_.+-]* at the start, and the rest.
local_run : Text → Text × Text
local_run [] = ([], [])
local_run (c ∷ s) = let r = local_run s in if is_local_char c then (c ∷ r.0, r.1) else ([], c ∷ s)

-- The longest [a-zA-Z0-9-]*(?:\.[a-zA-Z0-9-]+)* at the start.
domain_run : Text → Text
domain_run [] = []
domain_run (c ∷ s) =
    let rest = c ∷ domain_run s in
    if is_domain_char c || (c == b'.' && starts_label s) then rest else []

abbrev match_domain : Text → Text → Option Text
unfolding domain_run
match_domain local rest =
    let domain = domain_run rest in
    if starts_label rest && contains domain b'.' then some (local ++ b'@' ∷ domain) else none

abbrev match_rest : Text → Text → Option Text
unfolding match_domain
match_rest [] rest = none
match_rest (c ∷ local) [] = none
match_rest (c ∷ local) (d ∷ rest) = if d == b'@' then match_domain (c ∷ local) rest else none

-- The match of EMAIL_PATTERN that begins here, its lookbehind left out.
match_here : Text → Option Text
unfolding local_run match_rest
match_here s = let r = local_run s in match_rest r.0 r.1

-- The lookbehind is about the character before; the characters of a match are skipped.
scan : Bool → ℕ → Text → List Text
scan behind skip [] = []
scan behind (suc skip) (c ∷ s) = scan (is_local_char c) skip s
scan behind zero (c ∷ s) = elim (if behind then none else match_here (c ∷ s)) [
  | none ↦ scan (is_local_char c) zero s
  | some m ↦ m ∷ scan (is_local_char c) (length m - 1) s
]

-- [match.group(1) for match in EMAIL_PATTERN.finditer(value)]
unfoldable pub find_emails : Text → List Text
unfolding scan match_here
find_emails value = scan false zero value

abbrev pub is_quote : ℕ → Bool
is_quote c = contains (codes ",:;<>[](){}\"'") c

-- The tests on the part before the `@`.
abbrev pub is_local_part : Text → Bool
is_local_part local =
    not (is_empty local)
    && leb (length local) 64
    && not (starts_with local (codes "."))
    && not (ends_with local (codes "."))
    && not (has_sub local (codes ".."))

abbrev is_asset : Option Text → Bool
is_asset none = false
is_asset (some label) = contains asset_tlds label

-- The tests on the labels of the domain.
abbrev pub is_email_domain : Text → Bool
is_email_domain domain =
    let labels = split b'.' domain in
    leb 2 (length labels) && all is_dns_label labels && not (is_asset (last? labels))

abbrev pub with_domain : Text → Option Text → Option Text
with_domain local none = none
with_domain local (some domain) =
    if is_email_domain domain then some (local ++ b'@' ∷ domain) else none

-- re.split(r"[,;]", recipients)
split_recipients : Text → List Text
split_recipients [] = [] ∷ []
split_recipients (c ∷ s) =
    let rest = split_recipients s in if c == b',' || c == b';' then [] ∷ rest else cons_first c rest

module _ (py : Python) where
  -- _normalize_email
  unfoldable pub normalize_email : Text → Option Text
  unfolding strip count rpartition rstrip
  normalize_email candidate =
      let email = py.lower (strip is_quote candidate) in
      let parts = rpartition b'@' email in
      if ltb 320 (length email) || not (count b'@' email == 1)
      then none
      else if is_local_part parts.0
      then with_domain parts.0 (py.idna (rstrip (λ c. c == b'.') parts.2))
      else none

  abbrev pub EmailSet : Type 0
  EmailSet = Dict Text (Unit {0})

  abbrev pub add_email : EmailSet → Option Text → EmailSet
  add_email emails none = emails
  add_email emails (some email) = Dict.set_default emails email tt

  -- The loop of _add_matches, and that over the recipients of an anchor.
  unfoldable pub add_candidates : EmailSet → List Text → EmailSet
  add_candidates emails [] = emails
  add_candidates emails (candidate ∷ rest) =
      add_candidates (add_email emails (normalize_email candidate)) rest

  abbrev has_hidden_parent : Option Text → Bool
  has_hidden_parent none = true
  has_hidden_parent (some name) = contains non_visible_tags name

  -- The nodes that the loops over the strings of a document do not skip.
  abbrev pub is_visible : TextNode → Bool
  is_visible node = not (node.is_comment || has_hidden_parent node.parent)

  abbrev pub node_candidates : TextNode → List Text
  unfolding find_emails
  node_candidates node = if is_visible node then find_emails node.string else []

  unfoldable pub add_nodes : EmailSet → List TextNode → EmailSet
  unfolding add_candidates node_candidates
  add_nodes emails [] = emails
  add_nodes emails (node ∷ nodes) = add_nodes (add_candidates emails (node_candidates node)) nodes

  abbrev mailto_recipients : Text → Option (List Text)
  unfolding split_recipients
  mailto_recipients href =
      if starts_with (py.lower href) (codes "mailto:")
      then Option.map (λ parsed. split_recipients (py.unquote parsed.path)) (urlsplit py href)
      else some []

  abbrev href_recipients : Option Text → Option (List Text)
  unfolding mailto_recipients
  href_recipients none = some []
  href_recipients (some href) = mailto_recipients href

  -- The recipients of an anchor, none if the loop skips it; `none` is the ValueError of urlsplit.
  unfoldable pub recipients : Element → Option (List Text)
  unfolding href_recipients
  recipients anchor = href_recipients (as_str (anchor.get (codes "href")))

  unfoldable pub add_anchors : EmailSet → List Element → Option EmailSet
  unfolding add_candidates
  add_anchors emails [] = some emails
  add_anchors emails (anchor ∷ anchors) = elim (recipients anchor) [
    | none ↦ none
    | some candidates ↦ add_anchors (add_candidates emails candidates) anchors
  ]

  -- extract_emails
  unfoldable pub extract_emails : (html : BeautifulSoup) → html.Soup → Option (List Text)
  unfolding add_nodes add_anchors
  extract_emails html soup = Option.map Dict.keys (
      add_anchors (add_nodes [] (html.find_all_strings soup)) (html.find_all_href soup (codes "a")))
