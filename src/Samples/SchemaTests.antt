-- ===== src/Samples/SchemaTests.antt =====
-- The theorems on the schema at a database that has the table of alembic alone.
use webintel.Prelude.{
  ◌≡◌, refl, false, [], ◌∷◌, none, some, codes, text_Eq, text_eq, All, length, if◌then◌else◌,
}
use webintel.Schema.{string, Table}
use webintel.Schema.Models.{metadata}
use webintel.Schema.Catalog.{Catalog, accepts, effect, Database, IsDocumented, migrate}
use webintel.Schema.Frame.{beside}
use webintel.Schema.Initial.{upgrade, downgrade}
use webintel.Schema.Install.{IsDeclared, upgrade-IsDeclared, downgrade-upgrade}
use webintel.Schema.Typed.{IsTyped, migrate-IsTyped}

abbrev sample_database : Database
sample_database = record {
  Db = Catalog;
  catalog = λ db. db;
  execute = λ db op. if accepts db op then some (effect db op) else none;
}

sample_database-IsDocumented : IsDocumented sample_database
sample_database-IsDocumented = record {
  execute-accepts = λ db op h. (effect db op, rw h refl, refl);
}

abbrev version_table : Table
version_table = record {
  name = codes "alembic_version";
  columns =
      record {
        name = codes "version_num";
        type = string 32;
        nullable = false;
        server_default = none;
      }
      ∷ [];
  checks = [];
  foreign_keys = [];
  primary_keys =
      record { name = codes "alembic_version_pkc"; columns = codes "version_num" ∷ [] } ∷ [];
  uniques = [];
}

abbrev new_database : Catalog
new_database = record { tables = version_table ∷ []; indices = []; enums = [] }

upgrade-IsDeclared_example :
    (db' : Catalog) × (new : Catalog) × (migrate sample_database new_database upgrade ≡ some db')
    × (db' ≡ beside new new_database)
    × (length new.tables ≡ length metadata)
    × All (IsDeclared db') metadata
unfolding text_eq
upgrade-IsDeclared_example =
    upgrade-IsDeclared sample_database sample_database-IsDocumented new_database refl

downgrade-upgrade_example :
    (db' db'' : Catalog) × (migrate sample_database new_database upgrade ≡ some db')
    × (migrate sample_database db' downgrade ≡ some db'')
    × (db'' ≡ new_database)
unfolding text_eq
downgrade-upgrade_example =
    downgrade-upgrade sample_database sample_database-IsDocumented new_database refl refl

migrate-IsTyped_example :
    (db' : Catalog) × (migrate sample_database new_database upgrade ≡ some db') × IsTyped db'
unfolding text_eq
migrate-IsTyped_example =
    migrate-IsTyped sample_database sample_database-IsDocumented new_database (refl, tt) refl
