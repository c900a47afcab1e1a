-- ===== src/Storage.antt =====
-- internal/storage: the rows and the errors. The database (GORM over SQLite or Postgres) is a
-- parameter of the modules below, a record of the statements that the code runs.
pub mod History
pub mod Agents
pub mod Humans
pub mod Schema
pub mod Sqlite

-- GORM tells a missing row from every other failure.
pub data DbError : Type 0 where
  record_not_found failed : DbError

pub data StorageError : Type 0 where
  invalid_token empty_display_name tool_call_not_found unknown_cursor no_randomness database :
      StorageError
