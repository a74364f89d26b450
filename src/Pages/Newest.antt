-- ===== src/Pages/Newest.antt =====
-- What a part of the list of a website's pages holds.
use webintel.Prelude.{
  ℕ, zero, suc, ◌≡◌, ◌-◌, refl, sym, subst, true, List, [], ◌∷◌, keep, take, drop, length,
  length-take, min, All, arith,
}
use mathlib.Core.List.{Permᴰ}
use webintel.Prelude.Slices.{length-drop, All-keep, All-take, All-drop}
use webintel.Pages.{PageServices, Page, IsOrdered, IsNewestFirst, of_website, list_for_website}

length-perm {ℓ} : {A : Type ℓ} {xs ys : List A} → Permᴰ xs ys → length xs ≡ length ys
length-perm Permᴰ.nil = refl
length-perm (Permᴰ.cons e r) = omega (arith, length-perm r)
length-perm (Permᴰ.swap e e') = refl
length-perm (Permᴰ.trans r r') = omega (arith, length-perm r, length-perm r')

All-perm {ℓ} : {A : Type ℓ} (P : A → Type 0) {xs ys : List A} → Permᴰ xs ys → All P ys → All P xs
All-perm P Permᴰ.nil h = tt
All-perm P (Permᴰ.cons e r) (p, h) = (subst P (sym e) p, All-perm P r h)
All-perm P (Permᴰ.swap e e') (p, (q, h)) = (subst P (sym e) q, (subst P (sym e') p, h))
All-perm P (Permᴰ.trans r r') h = All-perm P r (All-perm P r' h)

module _ {Json : Type 0} where
  take-IsNewestFirst :
      (n : ℕ) (rows : List (Page Json)) → IsNewestFirst rows → IsNewestFirst (take n rows)
  take-IsNewestFirst zero rows h = tt
  take-IsNewestFirst (suc n) [] h = tt
  take-IsNewestFirst (suc n) (page ∷ rows) (p, h) =
      (All-take _ n rows p, take-IsNewestFirst n rows h)

  drop-IsNewestFirst :
      (n : ℕ) (rows : List (Page Json)) → IsNewestFirst rows → IsNewestFirst (drop n rows)
  drop-IsNewestFirst zero rows h = h
  drop-IsNewestFirst (suc n) [] h = tt
  drop-IsNewestFirst (suc n) (page ∷ rows) (p, h) = drop-IsNewestFirst n rows h

-- If the database orders rows as ORDER BY says, then a part of the list holds pages of the website
-- alone, the newest first, as many as the limit allows of those behind the offset.
pub list_for_website-newest :
    (services : PageServices) (laws : IsOrdered services) (db : services.Db)
    (website_id offset limit : ℕ)
    → IsNewestFirst (list_for_website services db website_id offset limit)
      × All
          (λ page. of_website website_id page ≡ true)
          (list_for_website services db website_id offset limit)
      × (length (list_for_website services db website_id offset limit)
          ≡ min limit (length (keep (of_website website_id) (services.pages db)) - offset))
unfolding list_for_website
list_for_website-newest services laws db website_id offset limit =
    let found = keep (of_website website_id) (services.pages db) in
    let rows = services.newest_first offset limit found in
    (
      take-IsNewestFirst limit (drop offset rows)
          (drop-IsNewestFirst offset rows (laws.newest_first_sorted offset limit found)),
      All-take _ limit (drop offset rows) (
          All-drop _ offset rows (
            All-perm _ (laws.newest_first-perm offset limit found)
              (All-keep (of_website website_id) (services.pages db)))),
      omega (
        arith,
        length-take limit (drop offset rows),
        length-drop offset rows,
        length-perm (laws.newest_first-perm offset limit found),
      ),
    )
