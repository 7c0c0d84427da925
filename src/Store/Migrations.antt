-- ===== src/Store/Migrations.antt =====
-- internal/broker/store/sqlite.go and sqlite_migrations.go: opening the database. The schema of the
-- database is its tables, its indexes and the migrations that are recorded as applied; a transaction
-- works on a copy, which `Commit` puts in the place of the database. What the next operations answer is
-- part of the state.
pub mod Migrated
use certplane.Base.{
  ℕ, zero, suc, Bool, true, false, ◌==◌, ◌||◌, Option, none, some, List, [], ◌∷◌, ◌++◌, Result, ok,
  err, ◌>>=◌, if◌then◌else◌,
}
use certplane.Base.Text.{Text, codes, is_empty, elem}
use certplane.Store.Sqlite.{SqliteStore}

-- `sqliteMigration`; its SQL is what it creates where it is not there.
pub record SqliteMigration : Type 0 where
  pub version : ℕ
  pub name : Text
  pub tables : List Text
  pub indexes : List Text

-- The table `schema_migrations` may be missing; its rows are versions and names.
pub record Schema : Type 0 where
  pub tables : List Text
  pub indexes : List Text
  pub applied : List (ℕ × Text)

-- The statements of a migration, and which of them fail.
pub data Statement : Type 0 where
  begin ensure commit : Statement
  check apply recording_of : ℕ → Statement

abbrev pub Faults : Type 0
Faults = Statement → Bool

pub data MigrationError : Type 0 where
  starting ensuring committing : MigrationError
  checking : ℕ → MigrationError
  applying recording : SqliteMigration → MigrationError
  no_path creating_directory opening : MigrationError

abbrev pub migrations_table : Text
migrations_table = codes "schema_migrations"

-- `sqliteMigrations`
abbrev pub initial_schema : SqliteMigration
initial_schema = record {
  version = 1;
  name = codes "initial_schema";
  tables = migrations_table ∷ codes "certificate_cache" ∷ codes "audit_events" ∷ [];
  indexes =
      codes "idx_certificate_cache_lookup"
      ∷ codes "idx_audit_events_timestamp"
      ∷ codes "idx_audit_events_identity"
      ∷ codes "idx_audit_events_profile"
      ∷ codes "idx_audit_events_decision"
      ∷ [];
}

abbrev pub sqlite_migrations : List SqliteMigration
sqlite_migrations = initial_schema ∷ []

-- `CREATE … IF NOT EXISTS`
pub create_missing : List Text → List Text → List Text
create_missing [] there = there
create_missing (n ∷ ns) there =
    create_missing ns (if elem n there then there else there ++ (n ∷ []))

-- `ensureMigrationTable`
unfoldable pub ensure_migration_table : Faults → Schema → Result MigrationError Schema
unfolding create_missing
ensure_migration_table f s =
    if f ensure
    then err ensuring
    else ok (record s { tables = create_missing (migrations_table ∷ []) s.tables })

-- `SELECT COUNT(1) … > 0`
unfoldable pub has_version : ℕ → List (ℕ × Text) → Bool
has_version v [] = false
has_version v ((w, n) ∷ rows) = v == w || has_version v rows

-- `migrationAlreadyApplied`
unfoldable pub migration_already_applied : Faults → ℕ → Schema → Result MigrationError Bool
unfolding has_version
migration_already_applied f v s =
    if f (check v) then err (checking v) else ok (has_version v s.applied)

-- The SQL of a migration, and the row that records it.
unfoldable pub apply_migration : Faults → SqliteMigration → Schema → Result MigrationError Schema
unfolding create_missing
apply_migration f m s =
    if f (apply m.version)
    then err (applying m)
    else if f (recording_of m.version)
    then err (recording m)
    else ok (record {
      tables = create_missing m.tables s.tables;
      indexes = create_missing m.indexes s.indexes;
      applied = s.applied ++ ((m.version, m.name) ∷ []);
    })

one_migration : Faults → SqliteMigration → Schema → Bool → Result MigrationError Schema
one_migration f m s true = ok s
one_migration f m s false = apply_migration f m s

-- The loop over the migrations.
unfoldable pub migrations_loop :
    Faults → List SqliteMigration → Schema → Result MigrationError Schema
unfolding one_migration
migrations_loop f [] s = ok s
migrations_loop f (m ∷ ms) s = do
  applied ← migration_already_applied f m.version s
  s' ← one_migration f m s applied
  migrations_loop f ms s'

-- What the transaction has made of the schema.
pub transaction : Faults → List SqliteMigration → Schema → Result MigrationError Schema
transaction f ms s = do
  ensured ← ensure_migration_table f s
  migrated ← migrations_loop f ms ensured
  if f commit then err committing else ok migrated

ended : Schema → Result MigrationError Schema → Option MigrationError × Schema
ended s (err e) = (some e, s)
ended s (ok s') = (none, s')

-- `migrate`: an error rolls the transaction back.
unfoldable pub migrate : Faults → List SqliteMigration → Schema → Option MigrationError × Schema
unfolding transaction ended
migrate f ms s = if f begin then (some starting, s) else ended s (transaction f ms s)

-- What the operations of `NewSQLiteStore` before the migrations answer.
pub record Opening : Type 0 where
  pub mkdir_fails : Bool
  pub open_fails : Bool

-- `NewSQLiteStore`: whether there is a store, and the schema behind it. The database is closed again
-- when a migration fails.
unfoldable pub new_sqlite_store : Opening → Faults → Text → Schema → Option MigrationError × Schema
new_sqlite_store o f path s =
    if is_empty path
    then (some no_path, s)
    else if o.mkdir_fails
    then (some creating_directory, s)
    else if o.open_fails
    then (some opening, s)
    else migrate f sqlite_migrations s
