-- ===== src/McpServer/Listed.antt =====
-- From a call of the fetch tool to the history that humans read.
use mcp_webtools.Prelude.{
  ok, err, ℕ, ◌<◌, ◌≡◌, refl, sym, ap, ◌∙◌, subst, inl, inr, true, false, Option, none, some, List,
  [], ◌∷◌, arith, if◌then◌else◌, Bool-cases, ℤ, Bytes, codes, same, same_refl, is_empty,
}
use mcp_webtools.Auth.{cut_prefix, scheme}
use mcp_webtools.Recorder.{ToolCall, call_row, default_preview_bytes}
use mcp_webtools.Fetch.Fetcher.{Result, Fetcher}
use mcp_webtools.Utf8.Valid.{IsUtf8}
use mcp_webtools.Storage.Agents.{Actor, authenticate_agent_token}
use mcp_webtools.Storage.History.{Call, Calls, HistoryFilter, record_tool_call, list_tool_calls}
use mcp_webtools.Storage.History.Rows.{filter, All, matches, Holds}
use mcp_webtools.Storage.History.Pages.{page_of, list_tool_calls-first}
use mcp_webtools.McpServer.{McpServer, ToolRequest, serve_fetch, serve_fetch-Answered}

-- The recorder's row; its ID and its time are unset.
abbrev pub call_of : ToolCall → Call
call_of row = record {
  id = [];
  actor_id = row.actor_id;
  tool = row.tool;
  input_json = row.input_json;
  is_error = row.is_error;
  duration_ms = row.duration_ms;
  output_size = row.output_size;
  output_json = row.output_json;
  truncated = row.truncated;
  called_at = 0;
}

-- `storage.RecordToolCall(rec.DB, call)`, with the new UUID and the clock.
abbrev pub insert_call : {Db : Type 0} → Calls Db → Bytes → ℕ → ToolCall → Db → Option Db
insert_call q fresh_id now row db = elim (record_tool_call q fresh_id now (call_of row) db) [
  | err e ↦ none
  | ok next ↦ some next
]

-- A row that is newer than all others, with an ID of its own.
abbrev pub IsNew : Call → List Call → Type 0
IsNew c rows = All (λ d. (d.called_at < c.called_at) × (same c.id d.id ≡ false)) rows

-- What SQL says of an INSERT of such a row.
pub record Records {Db : Type 0} (q : Calls Db) (rows : Db → List Call) : Type 0 where
  pub creates :
      (c : Call) (db : Db)
      → Holds q (rows db) db
      → is_empty c.id ≡ false
      → IsNew c (rows db)
      → (next : Db) × (q.create c db ≡ ok next) × Holds q (c ∷ rows db) next

-- The row with the ID and the time that it is stored under.
abbrev pub stored_call : Bytes → ℕ → ToolCall → Call
stored_call fresh_id now row = record (call_of row) { id = fresh_id; called_at = now }

-- All calls of one actor, newest first.
abbrev pub calls_by : Bytes → ℤ → HistoryFilter
calls_by actor limit = record {
  actor_id = actor;
  tool = [];
  is_error = none;
  limit = limit;
  cursor = [];
}

abbrev kept_or : {Db : Type 0} → Db → Option Db → Db
kept_or db inserted = elim inserted [ none ↦ db | some next ↦ next ]

matches-calls_by :
    (actor : Bytes) (limit : ℤ) (c : Call)
    → c.actor_id ≡ actor
    → matches (calls_by actor limit) c ≡ true
matches-calls_by actor limit c own = elim (Bool-cases (is_empty actor)) [
  | inl anyone ↦ ground (arith, anyone)
  | inr named ↦ ground (arith, named, own, same_refl actor)
]

module _ {Db : Type 0} (m : McpServer Db) where
  -- What the recorder writes of a call that is answered.
  abbrev pub answered_row : ToolRequest → Bytes → Result → ToolCall
  answered_row r actor out =
      call_row m.encode_in m.encode_out m.encode_error default_preview_bytes actor (codes "fetch")
        r.given (ok out) r.elapsed

  answered_row-actor :
      (r : ToolRequest) (actor : Bytes) (out : Result) → (answered_row r actor out).actor_id ≡ actor
  unfolding call_row
  answered_row-actor r actor out = refl

module _ {Db : Type 0} (m : McpServer Db) (q : Calls Db) (rows : Db → List Call)
    (laws : Records q rows) (fresh_id : Bytes) (now : ℕ) where
  inserted :
      (row : ToolCall) (db : Db)
      → is_empty fresh_id ≡ false
      → 0 < now
      → Holds q (rows db) db
      → IsNew (stored_call fresh_id now row) (rows db)
      → (next : Db) × (insert_call q fresh_id now row db ≡ some next)
        × Holds q (stored_call fresh_id now row ∷ rows db) next
  unfolding record_tool_call
  inserted row db named started holds older =
      let (next, created, kept) =
        laws.creates (stored_call fresh_id now row) db holds named older in
      (next, ground (arith, created), kept)

  -- Where the recorder has a database and writes with RecordToolCall, and the statements do what
  -- SQL says of them, after a call of the fetch tool with an actor's token that is answered with a
  -- page the listing of that actor's calls, read without error, starts with this call and goes on
  -- with the calls listed before, cut to the page size; the call's ID is new and not empty, its
  -- time is later than the time of every other row, the output encodes to well-formed UTF-8.
  pub serve_fetch-listed :
      (r : ToolRequest) (f g : Fetcher) (db after : Db) (out : Result) (token : Bytes)
      (actor : Actor) (limit : ℤ)
      → m.has_db ≡ true
      → ((row : ToolCall) (d : Db) → m.insert row d ≡ insert_call q fresh_id now row d)
      → IsUtf8 (m.encode_out out)
      → is_empty fresh_id ≡ false
      → 0 < now
      → cut_prefix scheme r.header ≡ some token
      → (authenticate_agent_token m.accounts m.hash_token r.now token db).0 ≡ ok actor
      → let known = (authenticate_agent_token m.accounts m.hash_token r.now token db).1 in
        Holds q (rows known) known
        → IsNew (stored_call fresh_id now (answered_row m r actor.id out)) (rows known)
        → serve_fetch m r (f, db) ≡ (ok (ok out), (g, after))
        → list_tool_calls q (calls_by actor.id limit) after
          ≡ page_of q (calls_by actor.id limit) (
              stored_call fresh_id now (answered_row m r actor.id out)
              ∷ filter (matches (calls_by actor.id limit)) (rows known))
  unfolding filter
  serve_fetch-listed r f g db after out token actor limit has inserts text named started header
        owner holds older ran =
      let known = (authenticate_agent_token m.accounts m.hash_token r.now token db).1 in
      let a = serve_fetch-Answered m r f g db after out has text ran in
      let same_token : a.token ≡ token = cc (a.named, header) in
      let same_actor : a.actor ≡ actor = cc (
        a.owner,
        owner,
        ap (λ t. (authenticate_agent_token m.accounts m.hash_token r.now t db).0) same_token,
      ) in
      let same_db : (authenticate_agent_token m.accounts m.hash_token r.now a.token db).1 ≡ known =
        ap (λ t. (authenticate_agent_token m.accounts m.hash_token r.now t db).1) same_token in
      let (next, ins, kept) =
        inserted (answered_row m r actor.id out) known named started holds older in
      let same_row : a.row ≡ answered_row m r actor.id out =
        a.written ∙ ap (λ (w : Actor). answered_row m r w.id out) same_actor in
      let stored : after ≡ next =
        a.stored
        ∙ ap (λ d. kept_or d (m.insert a.row d)) same_db
        ∙ ap (kept_or known) (
            inserts a.row known
            ∙ ap (λ row. insert_call q fresh_id now row known) same_row
            ∙ ins) in
      let call = stored_call fresh_id now (answered_row m r actor.id out) in
      let fl = calls_by actor.id limit in
      let first_match : matches fl call ≡ true =
        matches-calls_by actor.id limit call (answered_row-actor m r actor.id out) in
      subst (λ d. list_tool_calls q fl d ≡ page_of q fl (call ∷ filter (matches fl) (rows known)))
        (sym stored)
        (list_tool_calls-first q (call ∷ rows known) next fl kept refl
          ∙ ap (page_of q fl) (rw (first_match, if◌then◌else◌) refl))
