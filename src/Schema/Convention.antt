-- ===== src/Schema/Convention.antt =====
-- app/db/base.py: the naming convention and the mixins, and what a declarative model makes of them.
use webintel.Prelude.{
  Bool, true, false, not, ◌&&◌, List, [], ◌∷◌, ◌++◌, Option, none, some, Text, codes, keep, map,
}
use webintel.Schema.{
  ColumnType, uuid, date_time_tz, ServerDefault, sql, OnDelete, Column, CheckConstraint,
  ForeignKeyConstraint, KeyConstraint, Table, Index,
}

-- NAMING_CONVENTION
abbrev joined : Text → Text → Text
joined a b = a ++ b'_' ∷ b

abbrev pub ix_name : Text → Text → Text
ix_name table column = joined (codes "ix") (joined table column)

abbrev pub uq_name : Text → Text → Text
uq_name table column = joined (codes "uq") (joined table column)

abbrev pub ck_name : Text → Text → Text
ck_name table constraint = joined (codes "ck") (joined table constraint)

abbrev pub fk_name : Text → Text → Text → Text
fk_name table column referred = joined (codes "fk") (joined table (joined column referred))

abbrev pub pk_name : Text → Text
pk_name table = joined (codes "pk") table

-- ForeignKey("table.column", ondelete=...)
pub record ForeignKey : Type 0 where
  pub table : Text
  pub column : Text
  pub ondelete : OnDelete

-- mapped_column(...)
pub record MappedColumn : Type 0 where
  pub name : Text
  pub type : ColumnType
  pub nullable : Bool
  pub server_default : Option ServerDefault
  pub foreign_key : Option ForeignKey
  pub primary_key : Bool
  pub unique : Bool
  pub index : Bool

abbrev pub mapped_column : Text → ColumnType → Bool → MappedColumn
mapped_column name type nullable = record {
  name = name;
  type = type;
  nullable = nullable;
  server_default = none;
  foreign_key = none;
  primary_key = false;
  unique = false;
  index = false;
}

-- A class with __tablename__, its columns with those of its mixins, and __table_args__.
pub record Model : Type 0 where
  pub table_name : Text
  pub columns : List MappedColumn
  pub checks : List CheckConstraint
  pub uniques : List KeyConstraint

-- UUIDPrimaryKeyMixin
abbrev pub uuid_primary_key_mixin : List MappedColumn
uuid_primary_key_mixin = record (mapped_column (codes "id") uuid false) { primary_key = true } ∷ []

abbrev now_column : Text → MappedColumn
now_column name = record (mapped_column name date_time_tz false) {
  server_default = some (sql (codes "now()"));
}

-- TimestampMixin, and the column `created_at` of models without it
abbrev pub created_at : MappedColumn
created_at = now_column (codes "created_at")

abbrev pub timestamp_mixin : List MappedColumn
timestamp_mixin = created_at ∷ now_column (codes "updated_at") ∷ []

abbrev column_of : MappedColumn → Column
column_of c = record {
  name = c.name;
  type = c.type;
  nullable = c.nullable;
  server_default = c.server_default;
}

abbrev foreign_key_of : Text → MappedColumn → Option ForeignKey → List ForeignKeyConstraint
foreign_key_of table c none = []
foreign_key_of table c (some f) =
    record {
      name = fk_name table c.name f.table;
      column = c.name;
      ref_table = f.table;
      ref_column = f.column;
      ondelete = f.ondelete;
    }
    ∷ []

abbrev foreign_keys_of : Text → List MappedColumn → List ForeignKeyConstraint
foreign_keys_of table [] = []
foreign_keys_of table (c ∷ rest) =
    foreign_key_of table c c.foreign_key ++ foreign_keys_of table rest

-- A column that is unique without an index of its own has a constraint.
abbrev unnamed_uniques : Text → List MappedColumn → List KeyConstraint
unnamed_uniques table columns =
    map (λ (c : MappedColumn). record { name = uq_name table c.name; columns = c.name ∷ [] })
      (keep (λ (c : MappedColumn). c.unique && not c.index) columns)

-- The table and the indices that `Base.metadata` has for a model.
unfoldable pub table_of : Model → Table
table_of m = record {
  name = m.table_name;
  columns = map column_of m.columns;
  checks =
      map
        (λ (c : CheckConstraint). record {
          name = ck_name m.table_name c.name;
          sqltext = c.sqltext;
        })
        m.checks;
  foreign_keys = foreign_keys_of m.table_name m.columns;
  primary_keys =
      record {
        name = pk_name m.table_name;
        columns =
            map (λ (c : MappedColumn). c.name)
              (keep (λ (c : MappedColumn). c.primary_key) m.columns);
      }
      ∷ [];
  uniques = m.uniques ++ unnamed_uniques m.table_name m.columns;
}

unfoldable pub indices_of : Model → List Index
indices_of m =
    map
      (λ (c : MappedColumn). record {
        name = ix_name m.table_name c.name;
        table = m.table_name;
        columns = c.name ∷ [];
        unique = c.unique;
      })
      (keep (λ (c : MappedColumn). c.index) m.columns)
