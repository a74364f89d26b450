-- ===== src/Samples/PagesTests.antt =====
-- A table of pages that is a list, ordered by insertion.
use webintel.Prelude.{
  ℕ, ◌≤◌, refl, List, [], ◌∷◌, some, Text, leb, length, All, if◌then◌else◌, Bool-cases, inl, inr,
  arith,
}
use mathlib.Core.List.{Permᴰ}
use mathlib.Core.List.Permᴰ
use webintel.Pages.{Page, PageServices, IsNewestFirst, IsOrdered}

abbrev Row : Type 0
Row = Page Text

abbrev insert_row : Row → List Row → List Row
insert_row page [] = page ∷ []
insert_row page (row ∷ rows) =
    if leb row.crawled_at page.crawled_at then page ∷ row ∷ rows else row ∷ insert_row page rows

abbrev sort_rows : List Row → List Row
sort_rows [] = []
sort_rows (page ∷ rows) = insert_row page (sort_rows rows)

insert_row-perm : (page : Row) (rows : List Row) → Permᴰ (insert_row page rows) (page ∷ rows)
insert_row-perm page [] = Permᴰ.refl _
insert_row-perm page (row ∷ rows) = elim (Bool-cases (leb row.crawled_at page.crawled_at)) [
  | inl e ↦ rw e (Permᴰ.refl _)
  | inr e ↦ rw e (Permᴰ.trans (Permᴰ.cons refl (insert_row-perm page rows)) (Permᴰ.swap refl refl))
]

sort_rows-perm : (rows : List Row) → Permᴰ (sort_rows rows) rows
sort_rows-perm [] = Permᴰ.nil
sort_rows-perm (page ∷ rows) =
    Permᴰ.trans (insert_row-perm page (sort_rows rows)) (Permᴰ.cons refl (sort_rows-perm rows))

abbrev AreUpTo : ℕ → List Row → Type 0
AreUpTo n rows = All (λ row. row.crawled_at ≤ n) rows

AreUpTo-le : (m n : ℕ) (rows : List Row) → m ≤ n → AreUpTo m rows → AreUpTo n rows
AreUpTo-le m n [] h k = tt
AreUpTo-le m n (row ∷ rows) h (p, k) = (omega (arith, h, p), AreUpTo-le m n rows h k)

insert_row-AreUpTo :
    (n : ℕ) (page : Row) (rows : List Row)
    → page.crawled_at ≤ n
    → AreUpTo n rows
    → AreUpTo n (insert_row page rows)
insert_row-AreUpTo n page [] h k = (h, tt)
insert_row-AreUpTo n page (row ∷ rows) h (p, k) =
    elim (Bool-cases (leb row.crawled_at page.crawled_at)) [
      | inl e ↦ rw e (h, (p, k))
      | inr e ↦ rw e (p, insert_row-AreUpTo n page rows h k)
    ]

insert_row-IsNewestFirst :
    (page : Row) (rows : List Row) → IsNewestFirst rows → IsNewestFirst (insert_row page rows)
insert_row-IsNewestFirst page [] h = (tt, tt)
insert_row-IsNewestFirst page (row ∷ rows) (p, h) =
    elim (Bool-cases (leb row.crawled_at page.crawled_at)) [
      | inl e ↦
          let older : row.crawled_at ≤ page.crawled_at = ground (arith, e) in
          rw e ((older, AreUpTo-le row.crawled_at page.crawled_at rows older p), (p, h))
      | inr e ↦ rw e (
        insert_row-AreUpTo row.crawled_at page rows (ground (arith, e)) p,
        insert_row-IsNewestFirst page rows h,
      )
    ]

sort_rows-IsNewestFirst : (rows : List Row) → IsNewestFirst (sort_rows rows)
sort_rows-IsNewestFirst [] = tt
sort_rows-IsNewestFirst (page ∷ rows) =
    insert_row-IsNewestFirst page (sort_rows rows) (sort_rows-IsNewestFirst rows)

abbrev sample_services : PageServices
sample_services = record {
  Json = Text;
  Db = List Row;
  pages = λ db. db;
  insert_page = λ db page. some (page ∷ db);
  newest_first = λ offset limit rows. sort_rows rows;
  uuid = λ db. length db;
  now = λ db. 0;
}

sample_services-IsOrdered : IsOrdered sample_services
sample_services-IsOrdered = record {
  pages-insert_page = λ db db' page h. cc;
  newest_first-perm = λ offset limit rows. sort_rows-perm rows;
  newest_first_sorted = λ offset limit rows. sort_rows-IsNewestFirst rows;
}
