-- ===== src/Url/Query/Order.antt =====
-- The order of query parameters is total, and sorting by it forgets the order of the input.
use mathlib.Core.List.{Permᴰ}
use webintel.Prelude.{
  ◌≡◌, refl, ap₂, ◌∙◌, true, false, List, [], ◌∷◌, arith, nat_Eq, text_Eq, Text, text_eq_iff,
}
use webintel.Url.Query.{text_le, item_le, insert_item, sort_items}

pub text_le_refl : (s : Text) → text_le s s ≡ true
unfolding text_le
text_le_refl [] = refl
text_le_refl (x ∷ s) = ground (arith, text_le_refl s)

pub text_le_total : (s t : Text) → text_le s t ≡ false → text_le t s ≡ true
unfolding text_le
text_le_total [] t h = cc
text_le_total (x ∷ s) [] h = refl
text_le_total (x ∷ s) (y ∷ t) h = ground (arith, text_le_total s t)

pub text_le_antisymm : (s t : Text) → text_le s t ≡ true → text_le t s ≡ true → s ≡ t
unfolding text_le
text_le_antisymm [] [] h k = refl
text_le_antisymm [] (y ∷ t) h k = cc
text_le_antisymm (x ∷ s) [] h k = cc
text_le_antisymm (x ∷ s) (y ∷ t) h k = ground (arith, text_le_antisymm s t)

pub text_le_trans : (s t u : Text) → text_le s t ≡ true → text_le t u ≡ true → text_le s u ≡ true
unfolding text_le
text_le_trans [] t u h k = refl
text_le_trans (x ∷ s) [] u h k = cc
text_le_trans (x ∷ s) (y ∷ t) [] h k = cc
text_le_trans (x ∷ s) (y ∷ t) (z ∷ u) h k = ground (arith, text_le_trans s t u)

pub item_le_total : (p q : Text × Text) → item_le p q ≡ false → item_le q p ≡ true
unfolding item_le
item_le_total (k, v) (l, w) h =
    ground (arith, text_eq_iff k l, text_eq_iff l k, text_le_total v w, text_le_total k l)

pub item_le_antisymm : (p q : Text × Text) → item_le p q ≡ true → item_le q p ≡ true → p ≡ q
unfolding item_le
item_le_antisymm (k, v) (l, w) h g =
    ground (arith, text_eq_iff k l, text_eq_iff l k, text_le_antisymm v w, text_le_antisymm k l)

pub item_le_trans :
    (p q r : Text × Text) → item_le p q ≡ true → item_le q r ≡ true → item_le p r ≡ true
unfolding item_le
item_le_trans (k, v) (l, w) (m, x) h g = ground (
  arith,
  text_eq_iff k l,
  text_eq_iff l m,
  text_eq_iff k m,
  text_le_trans v w x,
  text_le_trans k l m,
  text_le_antisymm k l,
  text_le_antisymm l m,
)

pub insert_item_comm :
    (p q : Text × Text) (l : List (Text × Text))
    → insert_item p (insert_item q l) ≡ insert_item q (insert_item p l)
unfolding insert_item
insert_item_comm p q [] = ground (arith, item_le_total p q, item_le_antisymm p q)
insert_item_comm p q (r ∷ l) = ground (
  arith,
  item_le_total p q,
  item_le_antisymm p q,
  item_le_trans p q r,
  item_le_trans q p r,
  item_le_total p r,
  item_le_total q r,
  item_le_trans p r q,
  item_le_trans q r p,
  insert_item_comm p q l,
)

-- Lists with the same parameters are sorted to the same list.
pub sort_items-perm : {ps qs : List (Text × Text)} → Permᴰ ps qs → sort_items ps ≡ sort_items qs
unfolding sort_items
sort_items-perm Permᴰ.nil = refl
sort_items-perm (Permᴰ.cons e h) = ap₂ insert_item e (sort_items-perm h)
sort_items-perm (Permᴰ.swap {a} {b} {l} e f) =
    insert_item_comm a b (sort_items l)
    ∙ ap₂ (λ (x y : Text × Text). insert_item x (insert_item y (sort_items l))) f e
sort_items-perm (Permᴰ.trans h g) = sort_items-perm h ∙ sort_items-perm g
