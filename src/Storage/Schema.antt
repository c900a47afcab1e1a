-- ===== src/Storage/Schema.antt =====
-- internal/storage/db.go: the choice of the database and the migration of its schema. The drivers, the
-- automatic migration and the execution of SQL are parameters; a row of the calls' table has the
-- columns of the old schema and of the new one.
pub mod Backfill
pub mod Migrated
use mcp_webtools.Prelude.{
  Outcome, ok, err, ℕ, Bool, true, false, Option, none, some, List, [], ◌∷◌, if◌then◌else◌, Bytes,
  codes, same, is_empty,
}
use mcp_webtools.Auth.{cut_prefix}
use mcp_webtools.Storage.{DbError}

-- NULL is `none`. A table that never had the old schema has none of its columns.
pub record Row : Type 0 where
  pub args : Option Bytes
  pub response_preview : Option Bytes
  pub created_at : Option ℕ
  pub status : Option Bytes
  pub input_json : Option Bytes
  pub output_json : Option Bytes
  pub called_at : Option ℕ
  pub is_error : Option Bool

pub data Column : Type 0 where
  args_column response_preview_column created_at_column status_column : Column

-- The SET and the WHERE of the four UPDATEs, on one row: `to = from WHERE (to IS NULL OR to = '') AND
-- from IS NOT NULL`, and so on.
abbrev pub renamed : Option Bytes → Option Bytes → Option Bytes
renamed to none = to
renamed none (some old) = some old
renamed (some new) (some old) = if is_empty new then some old else some new

abbrev pub dated : Option ℕ → Option ℕ → Option ℕ
dated none created = created
dated (some at) created = some at

abbrev pub failed_status : Option Bool → Option Bytes → Option Bool
failed_status is_error none = is_error
failed_status is_error (some status) = some (same status (codes "error"))

abbrev pub update : Column → Row → Row
update args_column r = record r { input_json = renamed r.input_json r.args }
update response_preview_column r = record r {
  output_json = renamed r.output_json r.response_preview;
}
update created_at_column r = record r { called_at = dated r.called_at r.created_at }
update status_column r = record r { is_error = failed_status r.is_error r.status }

abbrev pub old_columns : List Column
old_columns = args_column ∷ response_preview_column ∷ created_at_column ∷ status_column ∷ []

-- What the migration asks of a database. `exec` runs an UPDATE of every row.
pub record Schema (Db : Type 0) : Type 0 where
  pub has_column : Column → Db → Bool
  pub exec : (Row → Row) → Db → Outcome DbError Db
  pub auto_migrate : Db → Outcome DbError Db

module _ {Db : Type 0} (q : Schema Db) where
  -- One guarded UPDATE.
  unfoldable pub fill : Column → Db → Outcome DbError Db
  fill c db = if q.has_column c db then q.exec (update c) db else ok db

  unfoldable pub fill_all : List Column → Db → Outcome DbError Db
  unfolding fill
  fill_all [] db = ok db
  fill_all (c ∷ columns) db = elim (fill c db) [ err e ↦ err e | ok next ↦ fill_all columns next ]

  unfoldable pub backfill_tool_call_rename : Db → Outcome DbError Db
  unfolding fill_all
  backfill_tool_call_rename db = fill_all old_columns db

  -- The function `migrate` of `Open`.
  unfoldable pub migrate : Db → Outcome DbError Db
  unfolding backfill_tool_call_rename
  migrate db = elim (q.auto_migrate db) [ err e ↦ err e | ok next ↦ backfill_tool_call_rename next ]

unfoldable pub is_postgres_dsn : Bytes → Bool
unfolding cut_prefix
is_postgres_dsn dsn = elim (cut_prefix (codes "postgres://") dsn) [
  | some _ ↦ true
  | none ↦ elim (cut_prefix (codes "postgresql://") dsn) [ some _ ↦ true | none ↦ false ]
]

-- The two backends, and what taking the advisory lock gives.
pub record Backends (Db : Type 0) : Type 0 where
  pub open_postgres : Bytes → Outcome DbError Db
  pub open_sqlite : Bytes → Outcome DbError Db
  pub schema : Schema Db
  pub lock : Db → Outcome DbError Db
  pub unlock : Db → Db

module _ {Db : Type 0} (b : Backends Db) where
  -- The lock is given back whatever the migration gives; where that fails the database is not used.
  unfoldable pub with_migration_lock : (Db → Outcome DbError Db) → Db → Outcome DbError Db
  with_migration_lock fn db = elim (b.lock db) [
    | err e ↦ err e
    | ok locked ↦ elim (fn locked) [ err e ↦ err e | ok next ↦ ok (b.unlock next) ]
  ]

  unfoldable pub open_database : Bytes → Outcome DbError Db
  unfolding is_postgres_dsn with_migration_lock
  open_database dsn =
      if is_postgres_dsn dsn
      then elim (b.open_postgres dsn) [
        | err e ↦ err e
        | ok db ↦ with_migration_lock (migrate b.schema) db
      ]
      else elim (b.open_sqlite dsn) [ err e ↦ err e | ok db ↦ migrate b.schema db ]
