-- ===== src/Schema/Frame.antt =====
-- A migration does the same beside tables, indices and enumerations that it does not name.
use webintel.Prelude.{
  ◌≡◌, refl, ap, ◌∙◌, Bool, true, false, not, ◌&&◌, ◌||◌, List, [], ◌∷◌, ◌++◌, some, Text, ◌==◌,
  text_Eq, any, all, keep, contains, append_assoc, Bool-cases, inl, inr, arith,
}
use webintel.Schema.{Table, Index, ForeignKeyConstraint}
use webintel.Schema.Catalog.{
  Operation, create_table, create_index, drop_index, drop_table, drop_enum, Catalog, is_named,
  is_index, is_index_on, resolves, is_target, refers_to, enums_of, uses_enum, has_indexed, accepts,
  effect, run, Database, IsDocumented, migrate,
}

-- Both catalogs, one behind the other.
abbrev pub beside : Catalog → Catalog → Catalog
beside c d = record {
  tables = c.tables ++ d.tables;
  indices = c.indices ++ d.indices;
  enums = c.enums ++ d.enums;
}

-- The catalog has nothing that the statement names.
abbrev pub is_apart : Catalog → Operation → Bool
is_apart d (create_table t) =
    not (any (is_named t.name) d.tables)
    && all (λ e. not (contains d.enums e)) (enums_of t)
    && not (any (is_index_on t.name) d.indices)
is_apart d (create_index i) = not (any (is_index i.name) d.indices)
is_apart d (drop_index name table) = not (any (is_index name) d.indices)
is_apart d (drop_table name) =
    not (any (is_named name) d.tables)
    && not (any (refers_to name) d.tables)
    && not (any (is_index_on name) d.indices)
is_apart d (drop_enum name) = not (any (uses_enum name) d.tables) && not (contains d.enums name)

module _ {A : Type 0} where
  pub any-append : (p : A → Bool) (xs ys : List A) → any p (xs ++ ys) ≡ (any p xs || any p ys)
  any-append p [] ys = refl
  any-append p (x ∷ xs) ys = ground (arith, any-append p xs ys)

  pub keep-append : (p : A → Bool) (xs ys : List A) → keep p (xs ++ ys) ≡ keep p xs ++ keep p ys
  keep-append p [] ys = refl
  keep-append p (x ∷ xs) ys = ground (arith, keep-append p xs ys)

  keep-none : (p : A → Bool) (ys : List A) → any p ys ≡ false → keep (λ y. not (p y)) ys ≡ ys
  keep-none p [] h = refl
  keep-none p (y ∷ ys) h = ground (arith, keep-none p ys)

  keep_beside :
      (p : A → Bool) (xs ys : List A)
      → any p ys ≡ false
      → keep (λ y. not (p y)) (xs ++ ys) ≡ keep (λ y. not (p y)) xs ++ ys
  keep_beside p xs ys h =
      keep-append (λ y. not (p y)) xs ys
      ∙ ap (λ zs. keep (λ y. not (p y)) xs ++ zs) (keep-none p ys h)

  all_mono :
      (p q : A → Bool)
      → ((x : A) → p x ≡ true → q x ≡ true)
      → (xs : List A) → all p xs ≡ true
      → all q xs ≡ true
  all_mono p q h [] k = refl
  all_mono p q h (x ∷ xs) k = ground (arith, h x, all_mono p q h xs)

  all_and :
      (p q r : A → Bool)
      → ((x : A) → p x ≡ true → q x ≡ true → r x ≡ true)
      → (xs : List A) → all p xs ≡ true
      → all q xs ≡ true
      → all r xs ≡ true
  all_and p q r h [] k l = refl
  all_and p q r h (x ∷ xs) k l = ground (arith, h x, all_and p q r h xs)

contains-append :
    (xs ys : List Text) (a : Text) → contains (xs ++ ys) a ≡ (contains xs a || contains ys a)
contains-append [] ys a = refl
contains-append (x ∷ xs) ys a = ground (arith, contains-append xs ys a)

any-is_enum : (xs : List Text) (a : Text) → any (λ e. e == a) xs ≡ contains xs a
any-is_enum [] a = refl
any-is_enum (x ∷ xs) a = ground (arith, any-is_enum xs a)

module _ (c d : Catalog) where
  resolves-beside :
      (t : Table) (f : ForeignKeyConstraint)
      → resolves c.tables t f ≡ true
      → resolves (c.tables ++ d.tables) t f ≡ true
  resolves-beside t f h = any-append (is_target t f) c.tables d.tables ∙ rw h refl

  accepts-beside :
      (op : Operation) → accepts c op ≡ true → is_apart d op ≡ true → accepts (beside c d) op ≡ true
  accepts-beside (create_table t) h a = ground (
    arith,
    any-append (is_named t.name) c.tables d.tables,
    all_mono (resolves c.tables t) (resolves (c.tables ++ d.tables) t) (resolves-beside t)
        t.foreign_keys,
    all_and (λ e. not (contains c.enums e)) (λ e. not (contains d.enums e))
        (λ e. not (contains (c.enums ++ d.enums) e))
        (λ e k l. ground (arith, contains-append c.enums d.enums e)) (enums_of t),
  )
  accepts-beside (create_index i) h a = ground (
    arith,
    any-append (is_index i.name) c.indices d.indices,
    any-append (has_indexed i) c.tables d.tables,
  )
  accepts-beside (drop_index name table) h a = ground (
    arith,
    any-append (λ (i : Index). is_index name i && is_index_on table i) c.indices d.indices,
  )
  accepts-beside (drop_table name) h a = ground (
    arith,
    any-append (is_named name) c.tables d.tables,
    any-append (refers_to name) c.tables d.tables,
  )
  accepts-beside (drop_enum name) h a =
      ground (arith, any-append (uses_enum name) c.tables d.tables)

  effect-beside :
      (op : Operation) → is_apart d op ≡ true → effect (beside c d) op ≡ beside (effect c op) d
  effect-beside (create_table t) a = rw (append_assoc (enums_of t) c.enums d.enums)
  effect-beside (create_index i) a = refl
  effect-beside (drop_index name table) a =
      rw (keep_beside (is_index name) c.indices d.indices (ground (arith, a))) refl
  effect-beside (drop_table name) a =
      rw
        (
          keep_beside (is_named name) c.tables d.tables (ground (arith, a)),
          keep_beside (is_index_on name) c.indices d.indices (ground (arith, a)),
        )
        refl
  effect-beside (drop_enum name) a =
      rw
        (keep_beside (λ e. e == name) c.enums d.enums
          (any-is_enum d.enums name ∙ ground (arith, a)))
        refl

pub run-beside :
    (c d : Catalog) (ops : List Operation) {c' : Catalog}
    → run c ops ≡ some c'
    → all (is_apart d) ops ≡ true
    → run (beside c d) ops ≡ some (beside c' d)
unfolding run
run-beside c d [] h a = ground (arith, h)
run-beside c d (op ∷ ops) {c'} h a = elim (Bool-cases (accepts c op)) [
  | inr refused ↦ absurd (ground (arith, rw (refused, run) at h))
  | inl accepted ↦
      rw
        (
          run,
          accepts-beside c d op accepted (ground (arith, a)),
          effect-beside c d op (ground (arith, a)),
        )
        (run-beside (effect c op) d ops {c' = c'} (rw (accepted, run) at h) (ground (arith, a)))
]

-- The database does what the run of the catalog says.
pub migrate-run :
    (database : Database) (documented : IsDocumented database) (db : database.Db)
    (ops : List Operation) {c : Catalog}
    → run (database.catalog db) ops ≡ some c
    → (db' : database.Db) × (migrate database db ops ≡ some db') × (database.catalog db' ≡ c)
unfolding run migrate
migrate-run database documented db [] h = (db, refl, ground (arith, h))
migrate-run database documented db (op ∷ ops) {c} h =
    elim (Bool-cases (accepts (database.catalog db) op)) [
      | inr refused ↦ absurd (ground (arith, rw (refused, run) at h))
      | inl accepted ↦
          let (db₁, done, same) = documented.execute-accepts db op accepted in
          let rest : run (database.catalog db₁) ops ≡ some c =
            ap (λ k. run k ops) same ∙ (rw (accepted, run) at h) in
          rw (done, migrate) (migrate-run database documented db₁ ops {c = c} rest)
    ]
