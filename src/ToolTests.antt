-- ===== src/ToolTests.antt =====
-- Runs of the two tools behind the MCP surface.
use mcp_webtools.Prelude.{
  Outcome, ok, ℕ, ◌≤◌, ◌≡◌, refl, ap, true, none, some, List, [], ◌∷◌, ◌++◌, arith, if◌then◌else◌,
  length, pos, negsuc, Bytes, codes, same, is_blank, bytes_discrete,
}
use mcp_webtools.Storage.Agents.{
  agent, AgentCredential, Accounts, note_use, authenticate_agent_token,
}
use mcp_webtools.Storage.Agents.Revoked.{find_live, found, revoke_rows}
use mcp_webtools.Auth
use mcp_webtools.Auth.{cut_prefix, scheme, require_bearer}
use mcp_webtools.Cache.Table.{lookup, remove}
use mcp_webtools.Cache.Memory
use mcp_webtools.Cache.Memory.Order.{erase}
use mcp_webtools.Keys.{digits, format_int}
use mcp_webtools.Utf8.Valid.{empty, one}
use mcp_webtools.Utf8.{cut_to_utf8_boundary}
use mcp_webtools.Recorder.{ToolCall, recorded, record_call, store_row}
use mcp_webtools.Fetch.Page.{page_from}
use mcp_webtools.Fetch.Stream.{
  page_from_stream, capture_rest, body_ended, read_full, read_all, copy_n, read_page, read_chunk,
}
use mcp_webtools.Fetch.Fetcher
use mcp_webtools.Fetch.Fetcher.{
  Url, Response, Origin, Result, FetchError, Fetcher, check, is_http, fetch, snap_key_of,
  result_key_of,
}
use mcp_webtools.Fetch.Fetcher.Captured.{answered}
use mcp_webtools.Fetch.Handler.{handler}
use mcp_webtools.Search
use mcp_webtools.Search.{Hit, Searcher, normal_limit}
use mcp_webtools.Search.Kept.{new-IsBounded}
use mcp_webtools.Search.Handler as SearchHandler
use mcp_webtools.McpServer.SearchTool.{
  SearchServer, SearchRequest, serve_search, call_search, serve_searches, length-serve_search,
}
use mcp_webtools.McpServer.{
  ToolRequest, McpServer, serve_fetch, call_tool, Answered, serve_fetch-Answered,
}

program : Unit {0}
unfolding find_live revoke_rows note_use same cut_prefix require_bearer authenticate_agent_token
program = tt

abbrev pub cred : ℕ → AgentCredential
cred n = record {
  id = n ∷ [];
  actor_id = n ∷ [];
  token_hash = codes "wt_" ++ n ∷ [];
  last_used_at = none;
  revoked_at = none;
}

-- The table of credentials beside another.
abbrev pub accounts_and : (T : Type 0) → Accounts (List AgentCredential × T)
accounts_and T = record {
  create_actor = λ a db. ok db;
  create_credential = λ c db. ok (db.0 ++ c ∷ [], db.1);
  first_live = λ h db. found (find_live h db.0);
  set_last_used = λ c now db. ok db;
  first_actor = λ id db. ok (record { id = id; name = id; kind = agent });
  agents = λ db. ok [];
  credentials_of = λ a db. ok db.0;
  actors_in = λ ids db. ok [];
  live_actor_ids = λ db. ok [];
  revoke_one = λ c now db. ok db;
  revoke_of = λ a now db. ok (revoke_rows a now db.0, db.1);
}

-- The two tables, credentials and calls.
abbrev Db : Type 0
Db = List AgentCredential × List ToolCall

abbrev both : Accounts Db
both = accounts_and (List ToolCall)

abbrev pub page_url : Url
page_url = record { scheme = codes "http"; redacted = codes "http://x/" }

abbrev pub server : McpServer Db
server = record {
  accounts = both;
  hash_token = λ s. s;
  has_db = true;
  insert = λ row db. some (db.0, row ∷ db.1);
  parse = λ s. if same s (codes "http://x/") then some page_url else none;
  encode_in = λ given. given.url;
  encode_out = λ r. codes "{}";
  encode_error = λ s. s;
  error_text = λ e. codes "error";
}

abbrev pub web : Origin
web = record {
  answer = λ u. some (answered 200 (codes "text/plain") (negsuc 0) (codes "naive"));
  in_time = true;
}

abbrev pub request_of : ℕ → ToolRequest
request_of n = record {
  header = codes "Bearer wt_" ++ n ∷ [];
  given = record { url = codes "http://x/"; offset = pos 0 };
  now = 1;
  done = 2;
  elapsed = 3_000_000;
  origin = web;
}

abbrev pub tiny : Fetcher
tiny = Fetcher.new (pos 1) (pos 4) (pos 8) (pos 0)

abbrev fetched : Outcome FetchError Result × Fetcher
fetched = fetch server.parse tiny 1 2 (codes "http://x/") (pos 0) (1 ∷ []) web

abbrev db : Db
db = (cred 1 ∷ cred 2 ∷ [], [])

abbrev pub out : Result
out = record {
  url = codes "http://x/";
  status_code = 200;
  content_type = codes "text/plain";
  offset = 0;
  content = codes "naiv";
  bytes = 4;
  truncated = true;
  next_offset = 4;
}

abbrev served : Outcome Auth.Challenge (Outcome Bytes Result) × (Fetcher × Db)
served = serve_fetch server (request_of 1) (tiny, db)

unfoldable pub fetch_program : Unit {0}
unfolding program serve_fetch call_tool recorded handler fetch Fetcher.fetch_cached
    Fetcher.fetch_origin Fetcher.store_result Fetcher.new check is_http lookup remove Memory.new
    Memory.get Memory.put Memory.delete_locked Memory.expired Memory.evict Memory.insert
    Memory.over_budget bytes_discrete erase snap_key_of result_key_of format_int digits page_from
    page_from_stream capture_rest body_ended read_full read_all copy_n read_page read_chunk is_blank
    Fetcher.capture_and_page cut_to_utf8_boundary
fetch_program = tt

served_out : served.0 ≡ ok (ok out)
unfolding fetch_program
served_out = refl

serve_fetch-Answered_example : Answered server (request_of 1) tiny db out served.1.0 served.1.1
serve_fetch-Answered_example =
    serve_fetch-Answered server (request_of 1) tiny served.1.0 db served.1.1 out refl
      (one (omega arith) (one (omega arith) empty)) (ap (λ a. (a, served.1)) served_out)

abbrev hit : Hit
hit = record { title = codes "Go"; url = codes "https://go.dev"; content = [] }

abbrev search_server : SearchServer Db
search_server = record {
  accounts = both;
  hash_token = λ s. s;
  has_db = true;
  insert = λ row db. some (db.0, row ∷ db.1);
  encode_in = λ given. given.query;
  encode_out = λ hits. codes "[]";
  encode_error = λ s. s;
  error_text = λ e. codes "error";
}

abbrev search_request : SearchRequest
search_request = record {
  header = codes "Bearer wt_" ++ 1 ∷ [];
  given = record { query = codes "go"; limit = pos 2 };
  now = 1;
  done = 2;
  elapsed = 3_000_000;
  instance_answers = record {
    endpoint_parses = true;
    request_builds = true;
    answer = λ q. some (record { status_code = 200; payload = some (hit ∷ hit ∷ hit ∷ []) });
  };
}

abbrev searcher : Searcher
searcher = Search.new (codes "http://searx/") (pos 0) (pos 0)

-- The second of two equal calls, which the cache answers.
abbrev repeated : Outcome Auth.Challenge (Outcome Bytes (List Hit)) × (Searcher × Db)
repeated =
    serve_search search_server search_request
      (serve_searches search_server (search_request ∷ []) (searcher, db))

repeated_hits : repeated.0 ≡ ok (ok (hit ∷ hit ∷ []))
unfolding program serve_search call_search recorded SearchHandler.handler Search.search
    Search.search_cached Search.store Search.new Search.query_instance Search.key_of Search.size_of
    lookup remove Memory.new Memory.get Memory.put Memory.delete_locked Memory.expired Memory.evict
    Memory.insert Memory.over_budget bytes_discrete erase format_int digits is_blank record_call
    store_row
repeated_hits = refl

length-serve_search_example : length (hit ∷ hit ∷ []) ≤ 2
unfolding normal_limit
length-serve_search_example =
    length-serve_search search_server (search_request ∷ []) search_request (searcher, db) repeated.1
      (hit ∷ hit ∷ []) (new-IsBounded (codes "http://searx/") (pos 0) (pos 0))
      (ap (λ a. (a, repeated.1)) repeated_hits)
