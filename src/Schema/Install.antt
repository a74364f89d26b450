-- ===== src/Schema/Install.antt =====
-- What the first migration makes of a database, and how to undo it.
use webintel.Prelude.{
  ◌≡◌, refl, ap, sym, subst, ◌∙◌, Bool, true, false, List, [], ◌∷◌, ◌++◌, Option, none, some,
  text_Eq, text_eq, append-nil, All, any, all, keep, length, arith,
}
use webintel.Jobs.Database.{find}
use webintel.Schema.{Table, in_order, indices_in_order}
use webintel.Schema.Convention.{Model, table_of, indices_of}
use webintel.Schema.Models.{metadata}
use webintel.Schema.Catalog.{Catalog, is_named, is_index_on, run, Database, IsDocumented, migrate}
use webintel.Schema.Frame.{beside, is_apart, run-beside, migrate-run, keep-append}
use webintel.Schema.Initial.{upgrade, downgrade}

abbrev pub empty : Catalog
empty = record { tables = []; indices = []; enums = [] }

abbrev or_empty : Option Catalog → Catalog
or_empty none = empty
or_empty (some c) = c

-- What `upgrade` makes of an empty database.
pub initial : Catalog
initial = or_empty (run empty upgrade)

pub run-upgrade : run empty upgrade ≡ some initial
unfolding initial run text_eq
run-upgrade = refl

run-downgrade : run initial downgrade ≡ some empty
unfolding initial run text_eq
run-downgrade = refl

initial-length : length initial.tables ≡ length metadata
unfolding initial run text_eq
initial-length = refl

-- The catalog has the table of the model, with the columns and constraints that it declares, and
-- its indices and no other on this table.
abbrev pub IsDeclared : Catalog → Model → Type 0
IsDeclared c m =
    (t : Table) × (find (is_named m.table_name) c.tables ≡ some t)
    × (in_order t ≡ in_order (table_of m))
    × (indices_in_order (keep (is_index_on m.table_name) c.indices)
        ≡ indices_in_order (indices_of m))

initial-IsDeclared : All (IsDeclared initial) metadata
unfolding initial run text_eq find in_order indices_in_order table_of indices_of
initial-IsDeclared = (
  (_, refl, refl, refl),
  (
    (_, refl, refl, refl),
    (
      (_, refl, refl, refl),
      (
        (_, refl, refl, refl),
        (
          (_, refl, refl, refl),
          ((_, refl, refl, refl), ((_, refl, refl, refl), ((_, refl, refl, refl), tt))),
        ),
      ),
    ),
  ),
)

find-append :
    {A : Type 0} (p : A → Bool) (xs ys : List A) {a : A}
    → find p xs ≡ some a
    → find p (xs ++ ys) ≡ some a
unfolding find
find-append p [] ys h = absurd (ground (arith, h))
find-append p (x ∷ xs) ys {a} h = ground (arith, h, find-append p xs ys {a = a})

keep-none_of : {A : Type 0} (p : A → Bool) (ys : List A) → any p ys ≡ false → keep p ys ≡ []
keep-none_of p [] h = refl
keep-none_of p (y ∷ ys) h = ground (arith, keep-none_of p ys)

IsDeclared-beside :
    (c d : Catalog) (m : Model)
    → any (is_index_on m.table_name) d.indices ≡ false
    → IsDeclared c m
    → IsDeclared (beside c d) m
IsDeclared-beside c d m h (t, found, same, indices) = (
  t,
  find-append (is_named m.table_name) c.tables d.tables found,
  same,
  ap indices_in_order (
        keep-append (is_index_on m.table_name) c.indices d.indices
        ∙ ap (λ ys. keep (is_index_on m.table_name) c.indices ++ ys)
            (keep-none_of (is_index_on m.table_name) d.indices h)
        ∙ append-nil _)
      ∙ indices,
)

All-beside :
    (c d : Catalog) (ms : List Model)
    → any (λ m. any (is_index_on m.table_name) d.indices) ms ≡ false
    → All (IsDeclared c) ms
    → All (IsDeclared (beside c d)) ms
All-beside c d [] h k = tt
All-beside c d (m ∷ ms) h (k, ks) =
    (IsDeclared-beside c d m (ground (arith, h)) k, All-beside c d ms (ground (arith, h)) ks)

no_foreign_index :
    (d : Catalog)
    → all (is_apart d) upgrade ≡ true
    → any (λ m. any (is_index_on m.table_name) d.indices) metadata ≡ false
no_foreign_index d h = ground (arith, h)

-- On a database that has nothing of the names in `upgrade`, the migration succeeds. It adds one table
-- for each model of the metadata and keeps all else; each model then has its table, with the columns
-- and constraints that it declares under the naming convention, and its indices and no others.
pub upgrade-IsDeclared :
    (database : Database) (documented : IsDocumented database) (db : database.Db)
    → all (is_apart (database.catalog db)) upgrade ≡ true
    → (db' : database.Db) × (new : Catalog) × (migrate database db upgrade ≡ some db')
      × (database.catalog db' ≡ beside new (database.catalog db))
      × (length new.tables ≡ length metadata)
      × All (IsDeclared (database.catalog db')) metadata
upgrade-IsDeclared database documented db h =
    let d = database.catalog db in
    let (db', done, same) =
      migrate-run database documented db upgrade (run-beside empty d upgrade run-upgrade h) in
    (
      db',
      initial,
      done,
      same,
      initial-length,
      subst (λ c. All (IsDeclared c) metadata) (sym same)
          (All-beside initial d metadata (no_foreign_index d h) initial-IsDeclared),
    )

-- On a database that has nothing of the names in `upgrade` and `downgrade`, the one after the other
-- succeeds, and leaves the tables, indices and enumerations as they were.
pub downgrade-upgrade :
    (database : Database) (documented : IsDocumented database) (db : database.Db)
    → all (is_apart (database.catalog db)) upgrade ≡ true
    → all (is_apart (database.catalog db)) downgrade ≡ true
    → (db' db'' : database.Db) × (migrate database db upgrade ≡ some db')
      × (migrate database db' downgrade ≡ some db'')
      × (database.catalog db'' ≡ database.catalog db)
downgrade-upgrade database documented db h k =
    let d = database.catalog db in
    let (db', done, same) =
      migrate-run database documented db upgrade (run-beside empty d upgrade run-upgrade h) in
    let (db'', undone, back) =
      migrate-run database documented db' downgrade
        (ap (λ c. run c downgrade) same ∙ run-beside initial d downgrade run-downgrade k) in
    (db', db'', done, undone, back)
