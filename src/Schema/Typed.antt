-- ===== src/Schema/Typed.antt =====
-- The foreign keys of a catalog have the types of the keys that they refer to.
use webintel.Prelude.{
  ◌≡◌, refl, sym, subst, true, false, not, List, [], ◌∷◌, some, Text, ◌==◌, text_Eq, text_eq_iff,
  All, any, all, keep, Bool-cases, inl, inr, arith,
}
use webintel.Schema.{Table, ForeignKeyConstraint}
use webintel.Schema.Catalog.{
  Operation, create_table, create_index, drop_index, drop_table, drop_enum, Catalog, is_named,
  resolves, refers_to, accepts, effect, run, Database, IsDocumented, migrate,
}
use webintel.Schema.Frame.{is_apart, run-beside, migrate-run}
use webintel.Schema.Initial.{upgrade}
use webintel.Schema.Install.{empty, run-upgrade}

-- Each foreign key has a table with the primary key that it names, of its own type.
abbrev IsTypedIn : List Table → Table → Type 0
IsTypedIn tables t = all (resolves tables t) t.foreign_keys ≡ true

abbrev pub IsTyped : Catalog → Type 0
IsTyped c = All (IsTypedIn c.tables) c.tables

all-resolves :
    (xs ys : List Table) (t : Table) (fs : List ForeignKeyConstraint)
    → ((f : ForeignKeyConstraint) → resolves xs t f ≡ true → resolves ys t f ≡ true)
    → all (resolves xs t) fs ≡ true
    → all (resolves ys t) fs ≡ true
all-resolves xs ys t [] h k = refl
all-resolves xs ys t (f ∷ fs) h k = ground (arith, h f, all-resolves xs ys t fs h)

created-IsTypedIn :
    (new : Table) (xs ts : List Table) → All (IsTypedIn xs) ts → All (IsTypedIn (new ∷ xs)) ts
created-IsTypedIn new xs [] h = tt
created-IsTypedIn new xs (t ∷ ts) (p, h) = (
  all-resolves xs (new ∷ xs) t t.foreign_keys (λ f k. ground (arith, k)) p,
  created-IsTypedIn new xs ts h,
)

-- A key that does not refer to the table is resolved without it.
resolves-keep :
    (name : Text) (t : Table) (f : ForeignKeyConstraint) (xs : List Table)
    → (f.ref_table == name) ≡ false
    → resolves xs t f ≡ true
    → resolves (keep (λ u. not (is_named name u)) xs) t f ≡ true
resolves-keep name t f [] h k = cc
resolves-keep name t f (u ∷ us) h k = ground (
  arith,
  h,
  text_eq_iff u.name f.ref_table,
  text_eq_iff u.name name,
  text_eq_iff f.ref_table name,
  resolves-keep name t f us,
)

all-keep :
    (name : Text) (xs : List Table) (t : Table) (fs : List ForeignKeyConstraint)
    → any (λ (f : ForeignKeyConstraint). f.ref_table == name) fs ≡ false
    → all (resolves xs t) fs ≡ true
    → all (resolves (keep (λ u. not (is_named name u)) xs) t) fs ≡ true
all-keep name xs t [] h k = refl
all-keep name xs t (f ∷ fs) h k =
    ground (arith, h, k, resolves-keep name t f xs, all-keep name xs t fs)

dropped-IsTypedIn :
    (name : Text) (xs ts : List Table)
    → any (refers_to name) ts ≡ false
    → All (IsTypedIn xs) ts
    → All (IsTypedIn (keep (λ u. not (is_named name u)) xs)) (keep (λ u. not (is_named name u)) ts)
dropped-IsTypedIn name xs [] h k = tt
dropped-IsTypedIn name xs (t ∷ ts) h (p, k) =
    let rest = dropped-IsTypedIn name xs ts (ground (arith, h)) k in
    let here = all-keep name xs t t.foreign_keys (ground (arith, h)) p in
    elim (Bool-cases (is_named name t)) [
      | inl gone ↦ rw gone rest
      | inr stays ↦ rw stays (here, rest)
    ]

effect-IsTyped :
    (c : Catalog) (op : Operation) → accepts c op ≡ true → IsTyped c → IsTyped (effect c op)
effect-IsTyped c (create_table t) h k = (
  all-resolves c.tables (t ∷ c.tables) t t.foreign_keys (λ f l. ground (arith, l))
      (ground (arith, h)),
  created-IsTypedIn t c.tables c.tables k,
)
effect-IsTyped c (create_index i) h k = k
effect-IsTyped c (drop_index name table) h k = k
effect-IsTyped c (drop_table name) h k =
    dropped-IsTypedIn name c.tables c.tables (ground (arith, h)) k
effect-IsTyped c (drop_enum name) h k = k

run-IsTyped :
    (c : Catalog) (ops : List Operation) {c' : Catalog}
    → run c ops ≡ some c'
    → IsTyped c
    → IsTyped c'
unfolding run
run-IsTyped c [] {c'} h k = let same : c ≡ c' = cc in subst IsTyped same k
run-IsTyped c (op ∷ ops) {c'} h k = elim (Bool-cases (accepts c op)) [
  | inr refused ↦ absurd (ground (arith, rw (refused, run) at h))
  | inl accepted ↦
      run-IsTyped (effect c op) ops {c' = c'} (rw (accepted, run) at h)
        (effect-IsTyped c op accepted k)
]

-- If every foreign key of a database resolves to a primary key of its own type, and the database has
-- nothing of the names in `upgrade`, then the migration succeeds and every foreign key resolves so
-- afterwards, those of the new tables included.
pub migrate-IsTyped :
    (database : Database) (documented : IsDocumented database) (db : database.Db)
    → IsTyped (database.catalog db)
    → all (is_apart (database.catalog db)) upgrade ≡ true
    → (db' : database.Db) × (migrate database db upgrade ≡ some db')
      × IsTyped (database.catalog db')
migrate-IsTyped database documented db k h =
    let d = database.catalog db in
    let ran = run-beside empty d upgrade run-upgrade h in
    let (db', done, same) = migrate-run database documented db upgrade ran in
    (db', done, subst IsTyped (sym same) (run-IsTyped d upgrade ran k))
