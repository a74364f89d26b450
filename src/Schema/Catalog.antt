-- ===== src/Schema/Catalog.antt =====
-- The effect of the statements of a migration on the tables, indices and enumerations of a database,
-- as PostgreSQL and alembic document it.
use webintel.Prelude.{
  ◌≡◌, Bool, true, false, not, ◌&&◌, List, [], ◌∷◌, ◌++◌, Option, none, some, Text, ◌==◌, text_Eq,
  any, all, keep, contains, nat_Eq,
}
use webintel.Schema.{
  ColumnType, uuid, text, boolean, integer, big_integer, date_time_tz, jsonb, string, numeric, enum,
  Column, ForeignKeyConstraint, Table, Index,
}

-- op.create_table, op.create_index, op.drop_index, op.drop_table, and ENUM(name=...).drop
pub data Operation : Type 0 where
  create_table : Table → Operation
  create_index : Index → Operation
  drop_index : Text → Text → Operation
  drop_table drop_enum : Text → Operation

pub record Catalog : Type 0 where
  pub tables : List Table
  pub indices : List Index
  pub enums : List Text

abbrev pub same_type : ColumnType → ColumnType → Bool
same_type uuid uuid = true
same_type text text = true
same_type boolean boolean = true
same_type integer integer = true
same_type big_integer big_integer = true
same_type date_time_tz date_time_tz = true
same_type jsonb jsonb = true
same_type (string n) (string m) = n == m
same_type (numeric p s) (numeric q r) = p == q && s == r
same_type (enum a vs) (enum b ws) = a == b
same_type _ _ = false

abbrev pub is_named : Text → Table → Bool
is_named name t = t.name == name

abbrev pub is_index : Text → Index → Bool
is_index name i = i.name == name

abbrev pub is_index_on : Text → Index → Bool
is_index_on table i = i.table == table

abbrev pub has_column : Text → Table → Bool
has_column name t = any (λ (c : Column). c.name == name) t.columns

-- The columns of these names have one type.
abbrev pub have_same_type : Text → Text → Table → Table → Bool
have_same_type a b t u =
    any
      (λ (c : Column).
        c.name == a && any (λ (d : Column). d.name == b && same_type c.type d.type) u.columns)
      t.columns

-- The table has the column that the key of `t` refers to, with the same type, as its primary key.
abbrev pub is_target : Table → ForeignKeyConstraint → Table → Bool
is_target t f u =
    is_named f.ref_table u
    && have_same_type f.column f.ref_column t u
    && any (λ k. contains k.columns f.ref_column) u.primary_keys

abbrev pub resolves : List Table → Table → ForeignKeyConstraint → Bool
resolves tables t f = any (is_target t f) tables

abbrev pub refers_to : Text → Table → Bool
refers_to name t = any (λ (f : ForeignKeyConstraint). f.ref_table == name) t.foreign_keys

abbrev enum_of : ColumnType → List Text → List Text
enum_of (enum name vs) rest = name ∷ rest
enum_of _ rest = rest

abbrev enums_of_columns : List Column → List Text
enums_of_columns [] = []
enums_of_columns (c ∷ rest) = enum_of c.type (enums_of_columns rest)

-- The enumerations that CREATE TABLE makes for its columns.
abbrev pub enums_of : Table → List Text
enums_of t = enums_of_columns t.columns

abbrev pub uses_enum : Text → Table → Bool
uses_enum name t = contains (enums_of t) name

abbrev pub has_indexed : Index → Table → Bool
has_indexed i t = is_named i.table t && all (λ column. has_column column t) i.columns

-- Does the database accept the statement?
abbrev pub accepts : Catalog → Operation → Bool
accepts c (create_table t) =
    not (any (is_named t.name) c.tables)
    && all (resolves c.tables t) t.foreign_keys
    && all (λ e. not (contains c.enums e)) (enums_of t)
accepts c (create_index i) = not (any (is_index i.name) c.indices) && any (has_indexed i) c.tables
accepts c (drop_index name table) =
    any (λ (i : Index). is_index name i && is_index_on table i) c.indices
accepts c (drop_table name) = any (is_named name) c.tables && not (any (refers_to name) c.tables)
accepts c (drop_enum name) = not (any (uses_enum name) c.tables)

abbrev pub effect : Catalog → Operation → Catalog
effect c (create_table t) = record c { tables = t ∷ c.tables; enums = enums_of t ++ c.enums }
effect c (create_index i) = record c { indices = i ∷ c.indices }
effect c (drop_index name table) = record c {
  indices = keep (λ (i : Index). not (is_index name i)) c.indices;
}
effect c (drop_table name) = record c {
  tables = keep (λ t. not (is_named name t)) c.tables;
  indices = keep (λ i. not (is_index_on name i)) c.indices;
}
effect c (drop_enum name) = record c { enums = keep (λ e. not (e == name)) c.enums }

-- `none` is an error of the database, after which nothing of the migration stays.
unfoldable pub run : Catalog → List Operation → Option Catalog
run c [] = some c
run c (op ∷ ops) = elim (accepts c op) [ true ↦ run (effect c op) ops | false ↦ none ]

-- The database of a migration: a parameter of the model. It accepts what it documents to accept, with
-- the documented effect; its extra state is its own.
pub record Database : Type 1 where
  pub Db : Type 0
  pub catalog : Db → Catalog
  pub execute : Db → Operation → Option Db

pub record IsDocumented (database : Database) : Type 0 where
  pub execute-accepts :
      (db : database.Db) (op : Operation)
      → accepts (database.catalog db) op ≡ true
      → (db' : database.Db) × (database.execute db op ≡ some db')
        × (database.catalog db' ≡ effect (database.catalog db) op)

-- The statements of a migration, one after another.
unfoldable pub migrate : (database : Database) → database.Db → List Operation → Option database.Db
migrate database db [] = some db
migrate database db (op ∷ ops) = elim (database.execute db op) [
  | none ↦ none
  | some db' ↦ migrate database db' ops
]
