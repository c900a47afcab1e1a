-- ===== src/McpServer.antt =====
-- internal/mcpserver/server.go and internal/tools/fetch/registrar.go: a call of the fetch tool on the
-- MCP surface, from the bearer token to the row of history. The transport of the MCP library is a
-- parameter: a request brings the header and the tool's decoded arguments.
pub mod SearchTool
pub mod Listed
use mcp_webtools.Prelude.{
  Outcome, ok, err, ℕ, ◌≡◌, sym, ap, ◌∙◌, subst, ◌≢◌, ◌⊎◌, inl, inr, Bool, true, false, Option,
  none, some, arith, Bytes, codes, is_empty, Outcome-cases,
}
use mcp_webtools.Auth.{Challenge, cut_prefix, scheme, require_bearer}
use mcp_webtools.Auth.Bearer.{require_bearer-admits, admitted}
use mcp_webtools.Keys.Decimal.{HasNoNul}
use mcp_webtools.Cache.Table.{lookup}
use mcp_webtools.Recorder.{
  Recorder, ToolCall, default_preview_bytes, recorded, registered, call_row, preview_limit,
}
use mcp_webtools.Recorder.Rows.{recorded-row, IsSuccess}
use mcp_webtools.Fetch.Fetcher.{Url, Origin, Result, FetchError, Fetcher, snap_key_of, fetch}
use mcp_webtools.Fetch.Fetcher.Safety.{IsWell, fetch-isolates}
use mcp_webtools.Fetch.Handler.{FetchInput, handler}
use mcp_webtools.Utf8.Valid.{IsUtf8}
use mcp_webtools.Storage.{StorageError}
use mcp_webtools.Storage.Agents.{Actor, Accounts, authenticate_agent_token}

-- What a call brings, and what the world gives it: the clock before and after, its duration, and the
-- web's answers.
pub record ToolRequest : Type 0 where
  pub header : Bytes
  pub given : FetchInput
  pub now : ℕ
  pub done : ℕ
  pub elapsed : ℕ
  pub origin : Origin

-- The parts that `Register` and `Handler` put together. `error_text` is the text of an error; `insert`
-- is the insertion of the recorder, which has a database where the server has one.
pub record McpServer (Db : Type 0) : Type 0 where
  pub accounts : Accounts Db
  pub hash_token : Bytes → Bytes
  pub has_db : Bool
  pub insert : ToolCall → Db → Option Db
  pub parse : Bytes → Option Url
  pub encode_in : FetchInput → Bytes
  pub encode_out : Result → Bytes
  pub encode_error : Bytes → Bytes
  pub error_text : FetchError → Bytes

module _ {Db : Type 0} (m : McpServer Db) where
  abbrev pub with_text : Outcome FetchError Result → Outcome Bytes Result
  with_text (ok r) = ok r
  with_text (err e) = err (m.error_text e)

  -- The tool's handler, whose error the recorder sees as a text.
  abbrev pub fetch_tool :
      ToolRequest → Option Bytes → FetchInput → Fetcher → Outcome Bytes Result × Fetcher
  fetch_tool r actor given f =
      let (result, next) = handler m.parse r.now r.done r.origin actor given f in
      (with_text result, next)

  -- The wrapped tool, for the actor that the bearer check has put in the context.
  unfoldable pub call_tool :
      ToolRequest → Actor → Fetcher × Db → Outcome Bytes Result × (Fetcher × Db)
  call_tool r actor (f, db) =
      recorded m.encode_in m.encode_out m.encode_error (registered m.has_db m.insert)
        (codes "fetch") (fetch_tool r) (some actor.id) r.given r.elapsed f db

  abbrev pub authenticate : ℕ → Bytes → Fetcher × Db → Outcome StorageError Actor × (Fetcher × Db)
  authenticate now token (f, db) =
      let (found, next) = authenticate_agent_token m.accounts m.hash_token now token db in
      (found, (f, next))

  unfoldable pub serve_fetch :
      ToolRequest → Fetcher × Db → Outcome Challenge (Outcome Bytes Result) × (Fetcher × Db)
  serve_fetch r = require_bearer (authenticate r.now) (call_tool r) r.header

  -- A call that is answered comes from an actor, by a token of it; the answer is that of the tool's
  -- handler for that actor, and history gets its row.
  pub record Answered (r : ToolRequest) (f : Fetcher) (db : Db) (out : Result) (g : Fetcher)
      (after : Db) : Type 0 where
    pub token : Bytes
    pub actor : Actor
    pub row : ToolCall
    pub named : cut_prefix scheme r.header ≡ some token
    pub owner : (authenticate_agent_token m.accounts m.hash_token r.now token db).0 ≡ ok actor
    pub result :
        fetch m.parse f r.now r.done r.given.url r.given.offset actor.id r.origin ≡ (ok out, g)
    pub stored :
        after
        ≡ elim (m.insert row (authenticate_agent_token m.accounts m.hash_token r.now token db).1) [
          | none ↦ (authenticate_agent_token m.accounts m.hash_token r.now token db).1
          | some next ↦ next
        ]
    pub written :
        row
        ≡ call_row m.encode_in m.encode_out m.encode_error default_preview_bytes actor.id
            (codes "fetch")
            r.given
            (ok out)
            r.elapsed
    pub success :
        IsSuccess m.encode_in m.encode_out default_preview_bytes actor.id
          (codes "fetch")
          r.given
          out
          row

  fetch_of_tool :
      (r : ToolRequest) (f g : Fetcher) (id : Bytes) (out : Result)
      → fetch_tool r (some id) r.given f ≡ (ok out, g)
      → fetch m.parse f r.now r.done r.given.url r.given.offset id r.origin ≡ (ok out, g)
  unfolding handler
  fetch_of_tool r f g id out h =
      elim (Outcome-cases (handler m.parse r.now r.done r.origin (some id) r.given f).0) [
        | inl (e, bad) ↦ absurd (grind (arith, bad, h))
        | inr (found, good) ↦ grind (arith, good, h)
      ]

  -- With a database and outputs that encode to well-formed UTF-8, a call of the fetch tool that is
  -- answered with a page carries a bearer token that authenticates an actor, the page is what a
  -- fetch with that actor's ID gives, and the one row handed to history names that actor, the
  -- tool, the input and the output.
  pub serve_fetch-Answered :
      (r : ToolRequest) (f g : Fetcher) (db after : Db) (out : Result)
      → m.has_db ≡ true
      → IsUtf8 (m.encode_out out)
      → serve_fetch r (f, db) ≡ (ok (ok out), (g, after))
      → Answered r f db out g after
  unfolding serve_fetch call_tool recorded preview_limit
  serve_fetch-Answered r f g db after out has text h =
      let (token, actor, named, filled, good, ran) =
        require_bearer-admits (authenticate r.now) (call_tool r) r.header (f, db) (g, after)
          (ok out) h in
      let db1 = (authenticate_agent_token m.accounts m.hash_token r.now token db).1 in
      let tool : fetch_tool r (some actor.id) r.given f ≡ (ok out, g) =
        ap (λ (a : Outcome Bytes Result × (Fetcher × Db)). (a.0, a.1.0)) ran in
      let (row, stored, success, written) =
        recorded-row m.encode_in m.encode_out m.encode_error (registered m.has_db m.insert)
          (codes "fetch") (fetch_tool r) r.given r.elapsed f db1 actor.id out g has tool text in
      record {
        token = token;
        actor = actor;
        row = row;
        named = named;
        owner = good;
        result = fetch_of_tool r f g actor.id out tool;
        stored = sym (ap (λ (a : Outcome Bytes Result × (Fetcher × Db)). a.1.1) ran) ∙ stored;
        success = success;
        written = written;
      }

  -- On a well-formed fetcher, a call of the fetch tool with a token of one actor leaves every
  -- snapshot of another actor as it was, or evicted, given that the two IDs differ, are without
  -- NUL and the other is not empty.
  pub serve_fetch-isolates :
      (r : ToolRequest) (f : Fetcher) (db : Db) (token other url : Bytes) (actor : Actor)
      → IsWell f
      → cut_prefix scheme r.header ≡ some token
      → is_empty token ≡ false
      → (authenticate_agent_token m.accounts m.hash_token r.now token db).0 ≡ ok actor
      → actor.id ≢ other
      → is_empty other ≡ false
      → HasNoNul actor.id
      → HasNoNul other
      → let g = (serve_fetch r (f, db)).1.0 in
        (lookup (snap_key_of other url) g.snapshots.items ≡ none)
        ⊎ (lookup (snap_key_of other url) g.snapshots.items
            ≡ lookup (snap_key_of other url) f.snapshots.items)
  unfolding serve_fetch call_tool recorded handler
  serve_fetch-isolates r f db token other url actor w named filled owner apart has plain
        other_plain =
      let kept =
        (fetch-isolates m.parse f r.now r.done r.given.url r.given.offset actor.id r.origin w other
          apart has plain other_plain url 0).0 in
      let ran =
        admitted (authenticate r.now) (call_tool r) r.header token (f, db) actor named filled
          owner in
      subst
        (λ (a : Outcome Challenge (Outcome Bytes Result) × (Fetcher × Db)).
          (lookup (snap_key_of other url) a.1.0.snapshots.items ≡ none)
          ⊎ (lookup (snap_key_of other url) a.1.0.snapshots.items
              ≡ lookup (snap_key_of other url) f.snapshots.items))
        (sym ran) kept
