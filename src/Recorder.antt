-- ===== src/Recorder.antt =====
-- internal/recorder/recorder.go: the row of history that every tool call leaves. The JSON encoding
-- and the insertion into the database are parameters.
pub mod Rows
use mcp_webtools.Prelude.{
  Outcome, ok, err, ℕ, ◌/◌, Bool, true, false, not, Option, none, some, leb, if◌then◌else◌, length,
  take, ℤ, pos, pos_part, leb_ℤ, Bytes,
}
use mcp_webtools.Utf8.{cut_to_utf8_boundary}

abbrev pub default_preview_bytes : ℕ
default_preview_bytes = 65536

-- The fields that the recorder fills in; `RecordToolCall` adds the id and the time.
pub record ToolCall : Type 0 where
  pub actor_id : Bytes
  pub tool : Bytes
  pub input_json : Bytes
  pub output_json : Bytes
  pub output_size : ℕ
  pub truncated : Bool
  pub is_error : Bool
  pub duration_ms : ℕ

-- `insert` is `storage.RecordToolCall`: `none` where the database fails. `DB == nil` is
-- `has_db = false`.
pub record Recorder (Db : Type 0) : Type 0 where
  pub has_db : Bool
  pub preview_bytes : ℤ
  pub insert : ToolCall → Db → Option Db

-- `recorder.Recorder{DB: db}` in a tool's `Register`: its PreviewBytes is left at zero.
abbrev pub unset_preview_bytes : ℤ
unset_preview_bytes = pos 0

abbrev pub registered : {Db : Type 0} → Bool → (ToolCall → Db → Option Db) → Recorder Db
registered has_db insert = record {
  has_db = has_db;
  preview_bytes = unset_preview_bytes;
  insert = insert;
}

unfoldable pub preview_limit : ℤ → ℕ
preview_limit preview_bytes =
    if leb_ℤ preview_bytes (pos 0) then default_preview_bytes else pos_part preview_bytes

unfoldable pub truncate_utf8 : Bytes → ℕ → Bytes × Bool
truncate_utf8 s limit =
    if leb (length s) limit then (s, false) else (cut_to_utf8_boundary (take limit s), true)

-- `encode_error` is `MarshalForHistory` of the object that holds the error's text.
unfoldable pub call_row :
    {In Out : Type 0}
    → (In → Bytes)
    → (Out → Bytes)
    → (Bytes → Bytes)
    → ℕ
    → Bytes
    → Bytes
    → In
    → Outcome Bytes Out
    → ℕ
    → ToolCall
unfolding truncate_utf8
call_row encode_in encode_out encode_error limit actor tool given outcome elapsed = elim outcome [
  | err message ↦ record {
    actor_id = actor;
    tool = tool;
    input_json = encode_in given;
    output_json = encode_error message;
    output_size = 0;
    truncated = false;
    is_error = true;
    duration_ms = elapsed / 1_000_000;
  }
  | ok out ↦
      let encoded = encode_out out in
      let (preview, cut) = truncate_utf8 encoded limit in
      record {
        actor_id = actor;
        tool = tool;
        input_json = encode_in given;
        output_json = preview;
        output_size = length encoded;
        truncated = cut;
        is_error = false;
        duration_ms = elapsed / 1_000_000;
      }
]

-- A database that fails is left as it is; the failure only goes to the log.
unfoldable pub store_row : {Db : Type 0} → Recorder Db → ToolCall → Db → Db
store_row rec call db = elim (rec.insert call db) [ none ↦ db | some next ↦ next ]

-- `actor` is what the request's context holds, `none` for an unauthenticated entry point.
unfoldable pub record_call :
    {Db In Out : Type 0}
    → (In → Bytes)
    → (Out → Bytes)
    → (Bytes → Bytes)
    → Recorder Db
    → Option Bytes
    → Bytes
    → In
    → Outcome Bytes Out
    → ℕ
    → Db
    → Db
record_call encode_in encode_out encode_error rec actor tool given outcome elapsed db =
    if not rec.has_db then db else elim actor [
      | none ↦ db
      | some id ↦
          store_row rec
            (call_row encode_in encode_out encode_error (preview_limit rec.preview_bytes) id tool
              given outcome elapsed)
            db
    ]

-- The wrapped handler: it runs `h` on the tool's state, records the call, and hands on what `h`
-- returned.
unfoldable pub recorded :
    {Db In Out S : Type 0}
    → (In → Bytes)
    → (Out → Bytes)
    → (Bytes → Bytes)
    → Recorder Db
    → Bytes
    → (Option Bytes → In → S → Outcome Bytes Out × S)
    → Option Bytes
    → In
    → ℕ
    → S
    → Db
    → Outcome Bytes Out × (S × Db)
recorded encode_in encode_out encode_error rec tool h actor given elapsed s db =
    let (outcome, next) = h actor given s in
    (
      outcome,
      (next, record_call encode_in encode_out encode_error rec actor tool given outcome elapsed db),
    )
