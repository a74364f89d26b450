-- ===== src/Parsing/Emails/Found.antt =====
-- Which addresses `extract_emails` returns.
use webintel.Prelude.{
  ◌≡◌, refl, sym, ap, ◌∙◌, Bool, true, false, ◌||◌, List, [], ◌∷◌, Option, none, some, Text, codes,
  any, ◌==◌, text_Eq, text_eq_iff, Bool-cases, Option-cases, inl, inr, arith,
}
use webintel.Prelude.Dict
use webintel.Py.Tables.{Python}
use webintel.Html.{Element, TextNode, BeautifulSoup}
use webintel.Parsing.Emails.{
  normalize_email, EmailSet, add_email, add_candidates, node_candidates, add_nodes, recipients,
  add_anchors, extract_emails,
}
use webintel.Parsing.Emails.Address.{IsEmail, normalize_email-IsEmail}

any-elim {ℓ} :
    {A : Type ℓ} {P : Type 0} (p : A → Bool)
    → ((a : A) → p a ≡ true → P)
    → (xs : List A) → any p xs ≡ true
    → P
any-elim p f [] h = absurd (ground (arith, h))
any-elim p f (x ∷ xs) h = elim (Bool-cases (p x)) [
  | inl e ↦ f x e
  | inr e ↦ any-elim p f xs (rw e at h)
]

either : (a b : Bool) {P : Type 0} → (a ≡ true → P) → (b ≡ true → P) → (a || b) ≡ true → P
either true b f g h = f refl
either false b f g h = g h

module _ (py : Python) where
  abbrev pub is_email_of : Text → Option Text → Bool
  is_email_of email none = false
  is_email_of email (some found) = found == email

  -- One of the candidates normalises to the address.
  abbrev pub is_among : Text → List Text → Bool
  is_among email = any (λ candidate. is_email_of email (normalize_email py candidate))

  abbrev pub is_among_recipients : Text → Option (List Text) → Bool
  is_among_recipients email none = false
  is_among_recipients email (some candidates) = is_among email candidates

  -- The set grows by the addresses that pass the test, and by no other.
  abbrev pub Grows : EmailSet py → (Text → Bool) → EmailSet py → Type 0
  Grows d found d' =
      Dict.HasDistinctKeys d'
      × ((email : Text) → Dict.has d' email ≡ (Dict.has d email || found email))

  or_assoc : (a b c : Bool) → ((a || b) || c) ≡ (a || (b || c))
  or_assoc a b c = ground arith

  or_swap : (a b : Bool) → (a || b) ≡ (b || a)
  or_swap a b = ground arith

  or_false : (a : Bool) → a ≡ (a || false)
  or_false a = ground arith

  Grows-trans :
      (d d' d'' : EmailSet py) (f g : Text → Bool)
      → Grows d f d'
      → Grows d' g d''
      → Grows d (λ e. f e || g e) d''
  Grows-trans d d' d'' f g (h, k) (h', k') =
      (h', λ e. k' e ∙ ap (λ b. b || g e) (k e) ∙ or_assoc (Dict.has d e) (f e) (g e))

  add_email-Grows :
      (d : EmailSet py) (o : Option Text)
      → Dict.HasDistinctKeys d
      → Grows d (λ e. is_email_of e o) (add_email py d o)
  add_email-Grows d none h = (h, λ e. or_false (Dict.has d e))
  add_email-Grows d (some email) h = (
    Dict.set_default-HasDistinctKeys d email tt h,
    λ e. Dict.has-set_default d email e tt ∙ or_swap (email == e) (Dict.has d e),
  )

  add_candidates-Grows :
      (d : EmailSet py) (candidates : List Text)
      → Dict.HasDistinctKeys d
      → Grows d (λ e. is_among e candidates) (add_candidates py d candidates)
  unfolding add_candidates
  add_candidates-Grows d [] h = (h, λ e. or_false (Dict.has d e))
  add_candidates-Grows d (c ∷ candidates) h =
      let first = add_email-Grows d (normalize_email py c) h in
      Grows-trans d (add_email py d (normalize_email py c)) _
        (λ e. is_email_of e (normalize_email py c)) (λ e. is_among e candidates) first
        (add_candidates-Grows (add_email py d (normalize_email py c)) candidates first.0)

  abbrev pub in_nodes : Text → List TextNode → Bool
  in_nodes email = any (λ node. is_among email (node_candidates py node))

  abbrev pub in_anchors : Text → List Element → Bool
  in_anchors email = any (λ anchor. is_among_recipients email (recipients py anchor))

  add_nodes-Grows :
      (d : EmailSet py) (nodes : List TextNode)
      → Dict.HasDistinctKeys d
      → Grows d (λ e. in_nodes e nodes) (add_nodes py d nodes)
  unfolding add_nodes
  add_nodes-Grows d [] h = (h, λ e. or_false (Dict.has d e))
  add_nodes-Grows d (node ∷ nodes) h =
      let first = add_candidates-Grows d (node_candidates py node) h in
      Grows-trans d (add_candidates py d (node_candidates py node)) _
        (λ e. is_among e (node_candidates py node)) (λ e. in_nodes e nodes) first
        (add_nodes-Grows (add_candidates py d (node_candidates py node)) nodes first.0)

  add_anchors-Grows :
      (d : EmailSet py) (anchors : List Element) {d' : EmailSet py}
      → Dict.HasDistinctKeys d
      → add_anchors py d anchors ≡ some d'
      → Grows d (λ e. in_anchors e anchors) d'
  unfolding add_anchors
  add_anchors-Grows d [] {d'} h e =
      let same : d ≡ d' = cc in rw (← same) (h, λ t. or_false (Dict.has d t))
  add_anchors-Grows d (anchor ∷ anchors) {d'} h e = elim (Option-cases (recipients py anchor)) [
    | inl n ↦ absurd (ground (arith, rw (add_anchors, n) at e))
    | inr (candidates, found) ↦
        let first = add_candidates-Grows d candidates h in
        let later =
          add_anchors-Grows (add_candidates py d candidates) anchors {d' = d'} first.0
            (rw (add_anchors, found) at e) in
        rw found (
          Grows-trans d (add_candidates py d candidates) d' (λ t. is_among t candidates)
            (λ t. in_anchors t anchors) first later)
  ]

  is_email_of-IsEmail :
      (email candidate : Text)
      → is_email_of email (normalize_email py candidate) ≡ true
      → IsEmail email
  is_email_of-IsEmail email candidate h = elim (Option-cases (normalize_email py candidate)) [
    | inl n ↦ absurd (ground (arith, rw n at h))
    | inr (found, e) ↦
        normalize_email-IsEmail py candidate (e ∙ ap some ((text_eq_iff found email).0 (rw e at h)))
  ]

  is_among-IsEmail :
      (email : Text) (candidates : List Text) → is_among email candidates ≡ true → IsEmail email
  is_among-IsEmail email =
      any-elim (λ c. is_email_of email (normalize_email py c)) (is_email_of-IsEmail email)

  in_nodes-IsEmail :
      (email : Text) (nodes : List TextNode) → in_nodes email nodes ≡ true → IsEmail email
  in_nodes-IsEmail email =
      any-elim (λ node. is_among email (node_candidates py node))
        (λ node. is_among-IsEmail email (node_candidates py node))

  recipients-IsEmail :
      (email : Text) (o : Option (List Text)) → is_among_recipients email o ≡ true → IsEmail email
  recipients-IsEmail email none h = cc
  recipients-IsEmail email (some candidates) h = is_among-IsEmail email candidates h

  in_anchors-IsEmail :
      (email : Text) (anchors : List Element) → in_anchors email anchors ≡ true → IsEmail email
  in_anchors-IsEmail email =
      any-elim (λ anchor. is_among_recipients email (recipients py anchor))
        (λ anchor. recipients-IsEmail email (recipients py anchor))

-- If `extract_emails` returns, then its addresses are the keys, all distinct, of a table. An address
-- is in it exactly when a candidate normalises to it: a match of the pattern in a string that is no
-- comment and whose parent is a visible tag, or a recipient of an anchor with a mailto link. And each
-- is well formed: a short local part with its dots inside, and DNS labels that end in no asset.
pub extract_emails_lem :
    (py : Python) (html : BeautifulSoup) (soup : html.Soup) (emails : List Text)
    → extract_emails py html soup ≡ some emails
    → (table : EmailSet py) × (emails ≡ Dict.keys table)
      × Dict.HasDistinctKeys table
      × ((email : Text)
          → Dict.has table email ≡ (
              in_nodes py email (html.find_all_strings soup)
              || in_anchors py email (html.find_all_href soup (codes "a"))))
      × ((email : Text) → Dict.has table email ≡ true → IsEmail email)
unfolding extract_emails Dict.has
extract_emails_lem py html soup emails h =
    let nodes = html.find_all_strings soup in
    let anchors = html.find_all_href soup (codes "a") in
    let first = add_nodes-Grows py [] nodes tt in
    elim (Option-cases (add_anchors py (add_nodes py [] nodes) anchors)) [
      | inl n ↦ absurd (ground (arith, rw n at h))
      | inr (table, e) ↦
          let later = add_anchors-Grows py (add_nodes py [] nodes) anchors {d' = table} first.0 e in
          let has = λ (email : Text).
            later.1 email ∙ ap (λ b. b || in_anchors py email anchors) (first.1 email) in
          (
            table,
            ground (arith, rw e at h),
            later.0,
            has,
            λ email k.
                either (in_nodes py email nodes) (in_anchors py email anchors)
                  (in_nodes-IsEmail py email nodes) (in_anchors-IsEmail py email anchors)
                  (sym (has email) ∙ k),
          )
    ]
