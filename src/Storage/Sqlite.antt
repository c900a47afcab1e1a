-- ===== src/Storage/Sqlite.antt =====
-- `openSQLite` of internal/storage/db_sqlite.go. The file system, the driver and the execution of a
-- statement are parameters.
use mcp_webtools.Prelude.{
  Outcome, ok, err, ◌≡◌, inl, inr, Bool, true, not, ◌||◌, arith, if◌then◌else◌, Bool-cases, Bytes,
  codes, same, is_empty, Outcome-cases,
}
use mcp_webtools.Storage.{DbError, failed}

-- `dir_of` is `filepath.Dir`; `make_dir` says whether `os.MkdirAll` works.
pub record Driver (Db : Type 0) : Type 0 where
  pub dir_of : Bytes → Bytes
  pub make_dir : Bytes → Bool
  pub open_file : Bytes → Outcome DbError Db
  pub exec : Bytes → Db → Outcome DbError Db

abbrev pub busy_timeout : Bytes
busy_timeout = codes "PRAGMA busy_timeout = 5000"

abbrev pub write_ahead : Bytes
write_ahead = codes "PRAGMA journal_mode = WAL"

module _ {Db : Type 0} (d : Driver Db) where
  -- The directory of the file, where it has one that is not the current one, is there or is made.
  unfoldable pub has_directory : Bytes → Bool
  has_directory dsn =
      if same dsn (codes ":memory:")
      then true
      else if same (d.dir_of dsn) (codes ".") || is_empty (d.dir_of dsn)
      then true
      else d.make_dir (d.dir_of dsn)

  unfoldable pub open_sqlite : Bytes → Outcome DbError Db
  unfolding has_directory
  open_sqlite dsn = if not (has_directory dsn) then err failed else elim (d.open_file dsn) [
    | err e ↦ err e
    | ok db ↦ elim (d.exec busy_timeout db) [
      | err e ↦ err e
      | ok waiting ↦ d.exec write_ahead waiting
    ]
  ]

-- What SQLite says of the two pragmas: each is in force once it has run, and stays so.
pub record Settles {Db : Type 0} (d : Driver Db) (InForce : Bytes → Db → Type 0) : Type 0 where
  pub sets : (pragma : Bytes) (db next : Db) → d.exec pragma db ≡ ok next → InForce pragma next
  pub keeps :
      (pragma other : Bytes) (db next : Db)
      → d.exec pragma db ≡ ok next
      → InForce other db
      → InForce other next

-- A database that is opened has both pragmas in force: a writer waits, and the log is written ahead.
pub open_sqlite-InForce :
    {Db : Type 0} (d : Driver Db) (InForce : Bytes → Db → Type 0) (dsn : Bytes) (db : Db)
    → Settles d InForce
    → open_sqlite d dsn ≡ ok db
    → InForce busy_timeout db × InForce write_ahead db
unfolding open_sqlite
open_sqlite-InForce d InForce dsn db laws h = elim (Bool-cases (has_directory d dsn)) [
  | inr none_there ↦ absurd (ground (arith, none_there, h))
  | inl there ↦ elim (Outcome-cases (d.open_file dsn)) [
    | inl (e, bad) ↦ absurd (ground (arith, there, bad, h))
    | inr (opened, good) ↦ elim (Outcome-cases (d.exec busy_timeout opened)) [
      | inl (e, bad) ↦ absurd (ground (arith, there, good, bad, h))
      | inr (waiting, waits) ↦
          let last : d.exec write_ahead waiting ≡ ok db = ground (arith, there, good, waits, h) in
          (
            laws.keeps write_ahead busy_timeout waiting db last
                (laws.sets busy_timeout opened waiting waits),
            laws.sets write_ahead waiting db last,
          )
    ]
  ]
]
