-- ===== src/Url/Query/Laws.antt =====
-- What `_normalize_query` does to the parameters of a query.
use mathlib.Core.List.{Permᴰ}
use mathlib.Core.List.Permᴰ
use webintel.Prelude.{
  ◌≡◌, refl, ap, ◌∙◌, sym, subst, inl, inr, Bool, true, false, List, [], ◌∷◌, arith, nat_Eq,
  text_Eq, Text, Bool-cases, is_empty, keep, All,
}
use webintel.Prelude.Result.{ok}
use webintel.Py.Tables.{Python}
use webintel.Url.Percent.{has_invalid_escape}
use webintel.Url.Query.{item_le, insert_item, sort_items, is_kept, kept_items, normalize_query}
use webintel.Url.Query.Order.{item_le_total, sort_items-perm}

abbrev Items : Type 0
Items = List (Text × Text)

-- Each parameter is at most the next one.
abbrev pub IsSorted : Items → Type 0
IsSorted [] = Unit
IsSorted (p ∷ []) = Unit
IsSorted (p ∷ q ∷ qs) = (item_le p q ≡ true) × IsSorted (q ∷ qs)

insert_item-IsSorted : (p : Text × Text) (l : Items) → IsSorted l → IsSorted (insert_item p l)
unfolding insert_item
insert_item-IsSorted p [] h = tt
insert_item-IsSorted p (q ∷ []) h = ground (arith, item_le_total p q)
insert_item-IsSorted p (q ∷ r ∷ l) h =
    ground (arith, item_le_total p q, insert_item-IsSorted p (r ∷ l), item_le_total p r)

pub sort_items-IsSorted : (l : Items) → IsSorted (sort_items l)
unfolding sort_items
sort_items-IsSorted [] = tt
sort_items-IsSorted (p ∷ l) = insert_item-IsSorted p (sort_items l) (sort_items-IsSorted l)

insert_item-perm : (p : Text × Text) (l : Items) → Permᴰ (insert_item p l) (p ∷ l)
unfolding insert_item
insert_item-perm p [] = Permᴰ.refl _
insert_item-perm p (q ∷ l) = elim (Bool-cases (item_le p q)) [
  | inl e ↦ rw e (Permᴰ.refl _)
  | inr e ↦ rw e (Permᴰ.trans (Permᴰ.cons refl (insert_item-perm p l)) (Permᴰ.swap refl refl))
]

pub sort_items_perm : (l : Items) → Permᴰ (sort_items l) l
unfolding sort_items
sort_items_perm [] = Permᴰ.nil
sort_items_perm (p ∷ l) =
    Permᴰ.trans (insert_item-perm p (sort_items l)) (Permᴰ.cons refl (sort_items_perm l))

keep-perm {ℓ} : {A : Type ℓ} (p : A → Bool) {l m : List A} → Permᴰ l m → Permᴰ (keep p l) (keep p m)
keep-perm p Permᴰ.nil = Permᴰ.nil
keep-perm p (Permᴰ.cons {a} {b} e h) = rw e (elim (Bool-cases (p b)) [
  | inl k ↦ rw k (Permᴰ.cons refl (keep-perm p h))
  | inr k ↦ rw k (keep-perm p h)
])
keep-perm p (Permᴰ.swap {a' = c} {b' = d} {l} e f) =
    rw (e, f)
      (elim (Bool-cases (p c)) [
        | inl k ↦ elim (Bool-cases (p d)) [
          | inl m ↦ rw (k, m) (Permᴰ.swap refl refl)
          | inr m ↦ rw (k, m) (Permᴰ.refl _)
        ]
        | inr k ↦ elim (Bool-cases (p d)) [
          | inl m ↦ rw (k, m) (Permᴰ.refl _)
          | inr m ↦ rw (k, m) (Permᴰ.refl _)
        ]
      ])
keep-perm p (Permᴰ.trans h g) = Permᴰ.trans (keep-perm p h) (keep-perm p g)

All-perm {ℓ} :
    {A : Type ℓ} (p : A → Bool) {l m : List A}
    → Permᴰ l m
    → All (λ a. p a ≡ true) m
    → All (λ a. p a ≡ true) l
All-perm p Permᴰ.nil h = tt
All-perm p (Permᴰ.cons e k) (q, h) = (rw e q, All-perm p k h)
All-perm p (Permᴰ.swap e f) (q, (r, h)) = (rw e r, (rw f q, h))
All-perm p (Permᴰ.trans k g) h = All-perm p k (All-perm p g h)

All-keep {ℓ} : {A : Type ℓ} (p : A → Bool) (l : List A) → All (λ a. p a ≡ true) (keep p l)
All-keep p [] = tt
All-keep p (a ∷ l) = elim (Bool-cases (p a)) [
  | inl k ↦ rw k (k, All-keep p l)
  | inr k ↦ rw k (All-keep p l)
]

keep-fixed {ℓ} : {A : Type ℓ} (p : A → Bool) (l : List A) → All (λ a. p a ≡ true) l → keep p l ≡ l
keep-fixed p [] h = refl
keep-fixed p (a ∷ l) (k, h) = rw (k, keep-fixed p l h)

module _ (py : Python) where
  -- Sorting and filtering the kept parameters again changes nothing.
  pub kept_again :
      (query : Text) → sort_items (keep (is_kept py) (kept_items py query)) ≡ kept_items py query
  unfolding kept_items
  kept_again query =
      let l = keep (is_kept py) (py.parse_qsl query) in
      let all =
        All-perm (is_kept py) (sort_items_perm l) (All-keep (is_kept py) (py.parse_qsl query)) in
      rw (keep-fixed (is_kept py) (sort_items l) all) (sort_items-perm (sort_items_perm l))

  normalize_query_nonempty :
      (q : Text)
      → is_empty q ≡ false
      → has_invalid_escape q ≡ false
      → normalize_query py q ≡ ok (py.urlencode (kept_items py q))
  unfolding normalize_query
  normalize_query_nonempty q e v = rw (e, v)

-- The normal form of a query does not depend on the order of its parameters, nor on those that
-- are not kept: two non-empty queries without invalid escapes whose kept parameters are the same up
-- to order normalise to the same text.
pub normalize_query-perm :
    (py : Python) (q r : Text)
    → is_empty q ≡ false
    → is_empty r ≡ false
    → has_invalid_escape q ≡ false
    → has_invalid_escape r ≡ false
    → Permᴰ (keep (is_kept py) (py.parse_qsl q)) (keep (is_kept py) (py.parse_qsl r))
    → normalize_query py q ≡ normalize_query py r
unfolding normalize_query kept_items
normalize_query-perm py q r eq er vq vr h =
    normalize_query_nonempty py q eq vq
    ∙ ap (λ l. ok (py.urlencode l)) (sort_items-perm h)
    ∙ sym (normalize_query_nonempty py r er vr)

pub is_empty-eq-nil : (t : Text) → is_empty t ≡ true → t ≡ []
is_empty-eq-nil [] h = refl
is_empty-eq-nil (c ∷ t) h = cc

module _ (py : Python) (q : Text)
    (back : py.parse_qsl (py.urlencode (kept_items py q)) ≡ kept_items py q)
    (valid : has_invalid_escape (py.urlencode (kept_items py q)) ≡ false) where
  kept_items-back : kept_items py (py.urlencode (kept_items py q)) ≡ kept_items py q
  unfolding kept_items
  kept_items-back = ap (λ l. sort_items (keep (is_kept py) l)) back ∙ kept_again py q

  normalize_query_fixed :
      normalize_query py (py.urlencode (kept_items py q)) ≡ ok (py.urlencode (kept_items py q))
  unfolding normalize_query
  normalize_query_fixed = elim (Bool-cases (is_empty (py.urlencode (kept_items py q)))) [
    | inl e ↦ rw e (ap ok (sym (is_empty-eq-nil _ e)))
    | inr e ↦ normalize_query_nonempty py _ e valid ∙ ap (λ l. ok (py.urlencode l)) kept_items-back
  ]

  Canonical : Text → Type 0
  Canonical t =
      (normalize_query py t ≡ ok t)
      × IsSorted (py.parse_qsl t)
      × Permᴰ (py.parse_qsl t) (keep (is_kept py) (py.parse_qsl q))
      × All (λ p. is_kept py p ≡ true) (py.parse_qsl t)

  urlencode-Canonical : Canonical (py.urlencode (kept_items py q))
  unfolding Canonical kept_items
  urlencode-Canonical = (
    normalize_query_fixed,
    subst IsSorted (sym back) (sort_items-IsSorted (keep (is_kept py) (py.parse_qsl q))),
    subst (λ l. Permᴰ l (keep (is_kept py) (py.parse_qsl q))) (sym back)
        (sort_items_perm (keep (is_kept py) (py.parse_qsl q))),
    subst (All (λ p. is_kept py p ≡ true)) (sym back) (
        All-perm (is_kept py) (sort_items_perm (keep (is_kept py) (py.parse_qsl q)))
          (All-keep (is_kept py) (py.parse_qsl q))),
  )

pub normalize_query-eq-ok :
    (py : Python) (q r : Text)
    → is_empty q ≡ false
    → normalize_query py q ≡ ok r
    → py.urlencode (kept_items py q) ≡ r
unfolding normalize_query
normalize_query-eq-ok py q r e h = elim (Bool-cases (has_invalid_escape q)) [
  | inl bad ↦ ground (arith, h)
  | inr v ↦ cc (normalize_query_nonempty py q e v)
]

-- If the encoded parameters decode to themselves and have no invalid escape, then the normal form
-- of a query is its own normal form, and its parameters are the kept ones of the query: sorted,
-- each as often, and none of them a tracking parameter.
pub normalize_query_canonical :
    (py : Python) (q r : Text)
    → py.parse_qsl (py.urlencode (kept_items py q)) ≡ kept_items py q
    → has_invalid_escape (py.urlencode (kept_items py q)) ≡ false
    → is_empty q ≡ false
    → normalize_query py q ≡ ok r
    → (normalize_query py r ≡ ok r)
      × IsSorted (py.parse_qsl r)
      × Permᴰ (py.parse_qsl r) (keep (is_kept py) (py.parse_qsl q))
      × All (λ p. is_kept py p ≡ true) (py.parse_qsl r)
unfolding Canonical
normalize_query_canonical py q r back valid e h =
    let same : py.urlencode (kept_items py q) ≡ r = normalize_query-eq-ok py q r e h in
    subst (Canonical py q back valid) same (urlencode-Canonical py q back valid)
