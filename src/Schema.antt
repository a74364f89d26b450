-- ===== src/Schema.antt =====
-- Tables as the models of app/db/models declare them, and as a migration of alembic creates them.
use webintel.Prelude.{ℕ, Bool, List, [], ◌∷◌, Option, none, some, Text, if◌then◌else◌}
use webintel.Url.Query.{text_le}
pub mod Catalog
pub mod Convention
pub mod Frame
pub mod Created
pub mod Initial
pub mod Install
pub mod Main
pub mod Models
pub mod Typed

-- The types of SQLAlchemy that the columns have; an enumeration has a name and its values.
pub data ColumnType : Type 0 where
  uuid text boolean integer big_integer date_time_tz jsonb : ColumnType
  string : ℕ → ColumnType
  numeric : ℕ → ℕ → ColumnType
  enum : Text → List Text → ColumnType

-- server_default: SQL, or a text for a literal
pub data ServerDefault : Type 0 where
  sql literal : Text → ServerDefault

pub data OnDelete : Type 0 where
  cascade set_null : OnDelete

pub record Column : Type 0 where
  pub name : Text
  pub type : ColumnType
  pub nullable : Bool
  pub server_default : Option ServerDefault

pub record CheckConstraint : Type 0 where
  pub name : Text
  pub sqltext : Text

pub record ForeignKeyConstraint : Type 0 where
  pub name : Text
  pub column : Text
  pub ref_table : Text
  pub ref_column : Text
  pub ondelete : OnDelete

-- A unique constraint or a primary key
pub record KeyConstraint : Type 0 where
  pub name : Text
  pub columns : List Text

pub record Table : Type 0 where
  pub name : Text
  pub columns : List Column
  pub checks : List CheckConstraint
  pub foreign_keys : List ForeignKeyConstraint
  pub primary_keys : List KeyConstraint
  pub uniques : List KeyConstraint

pub record Index : Type 0 where
  pub name : Text
  pub table : Text
  pub columns : List Text
  pub unique : Bool

-- The order of a table's parts says nothing: they are compared in the order of their names.
module _ {A : Type 0} (key : A → Text) where
  unfoldable pub insert_by : A → List A → List A
  unfolding text_le
  insert_by a [] = a ∷ []
  insert_by a (b ∷ rest) = if text_le (key a) (key b) then a ∷ b ∷ rest else b ∷ insert_by a rest

  unfoldable pub sort_by : List A → List A
  unfolding insert_by
  sort_by [] = []
  sort_by (a ∷ rest) = insert_by a (sort_by rest)

unfoldable pub in_order : Table → Table
unfolding sort_by
in_order t = record {
  name = t.name;
  columns = sort_by (λ (c : Column). c.name) t.columns;
  checks = sort_by (λ (c : CheckConstraint). c.name) t.checks;
  foreign_keys = sort_by (λ (c : ForeignKeyConstraint). c.name) t.foreign_keys;
  primary_keys = t.primary_keys;
  uniques = sort_by (λ (c : KeyConstraint). c.name) t.uniques;
}

unfoldable pub indices_in_order : List Index → List Index
unfolding sort_by
indices_in_order = sort_by (λ (i : Index). i.name)
