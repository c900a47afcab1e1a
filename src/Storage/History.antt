-- ===== src/Storage/History.antt =====
-- internal/storage/history_repo.go: the history of tool calls.
pub mod Rows
pub mod Pages
use mcp_webtools.Prelude.{
  Outcome, ok, err, ℕ, Bool, ◌||◌, Option, none, some, List, [], ◌∷◌, ◌==◌, if◌then◌else◌, length,
  ℤ, pos, pos_part, sub_ℕ, ltb_ℤ, leb_ℤ, Bytes, is_empty,
}
use mcp_webtools.Storage.{
  DbError, record_not_found, failed, StorageError, tool_call_not_found, unknown_cursor, database,
}

pub record Call : Type 0 where
  pub id : Bytes
  pub actor_id : Bytes
  pub tool : Bytes
  pub input_json : Bytes
  pub is_error : Bool
  pub duration_ms : ℕ
  pub output_size : ℕ
  pub output_json : Bytes
  pub truncated : Bool
  pub called_at : ℕ

-- `is_error` is a pointer in the source, nil for no filter. The empty string is no filter either.
pub record HistoryFilter : Type 0 where
  pub actor_id : Bytes
  pub tool : Bytes
  pub is_error : Option Bool
  pub limit : ℤ
  pub cursor : Bytes

abbrev pub default_history_page_size : ℕ
default_history_page_size = 50

abbrev pub max_history_page_size : ℤ
max_history_page_size = pos 200

-- The WHERE, ORDER BY and LIMIT of one SELECT: the conditions that are set, then
-- `(called_at < ?) OR (called_at = ? AND id < ?)` for the row `after`, newest first.
pub record Select : Type 0 where
  pub actor_id : Option Bytes
  pub tool : Option Bytes
  pub is_error : Option Bool
  pub after : Option Call
  pub limit : ℕ

-- The statements on the table of calls, and the order of IDs that the database uses.
pub record Calls (Db : Type 0) : Type 0 where
  pub create : Call → Db → Outcome DbError Db
  pub first : Bytes → Db → Outcome DbError Call
  pub find : Select → Db → Outcome DbError (List Call)
  pub delete_before : ℤ → Db → ℕ × Outcome DbError Db
  pub id_lt : Bytes → Bytes → Bool

abbrev pub set : Bytes → Option Bytes
set s = if is_empty s then none else some s

unfoldable pub page_size : ℤ → ℕ
page_size limit =
    if leb_ℤ limit (pos 0) || ltb_ℤ max_history_page_size limit
    then default_history_page_size
    else pos_part limit

-- The ID of the last row.
unfoldable pub last_id : List Call → Bytes
last_id [] = []
last_id (c ∷ []) = c.id
last_id (c ∷ d ∷ calls) = last_id (d ∷ calls)

unfoldable pub next_cursor : ℕ → List Call → Bytes
unfolding last_id
next_cursor limit calls = if length calls == limit then last_id calls else []

module _ {Db : Type 0} (q : Calls Db) where
  -- `fresh_id` and `now` are the new UUID and the clock; a time of zero is unset.
  unfoldable pub record_tool_call : Bytes → ℕ → Call → Db → Outcome DbError Db
  record_tool_call fresh_id now call db =
      q.create
        (record call {
          id = if is_empty call.id then fresh_id else call.id;
          called_at = if call.called_at == 0 then now else call.called_at;
        })
        db

  unfoldable pub find_page :
      HistoryFilter → Option Call → Db → Outcome StorageError (List Call × Bytes)
  unfolding page_size next_cursor
  find_page f after db =
      let limit = page_size f.limit in
      elim (q.find
        (record {
          actor_id = set f.actor_id;
          tool = set f.tool;
          is_error = f.is_error;
          after = after;
          limit = limit;
        })
        db) [ err e ↦ err database | ok calls ↦ ok (calls, next_cursor limit calls) ]

  unfoldable pub list_tool_calls : HistoryFilter → Db → Outcome StorageError (List Call × Bytes)
  list_tool_calls f db =
      if is_empty f.cursor then find_page f none db else elim (q.first f.cursor db) [
        | err record_not_found ↦ err unknown_cursor
        | err failed ↦ err database
        | ok row ↦ find_page f (some row) db
      ]

  unfoldable pub get_tool_call : Bytes → Db → Outcome StorageError Call
  get_tool_call id db = elim (q.first id db) [
    | err record_not_found ↦ err tool_call_not_found
    | err failed ↦ err database
    | ok row ↦ ok row
  ]

  -- The number of rows that went. A statement that fails leaves the database.
  unfoldable pub prune_tool_calls : ℤ → ℕ → Db → ℕ × Outcome DbError Db
  prune_tool_calls retention now db =
      if leb_ℤ retention (pos 0)
      then (0, ok db)
      else q.delete_before (sub_ℕ now (pos_part retention)) db
