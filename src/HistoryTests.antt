-- ===== src/HistoryTests.antt =====
-- A call of the fetch tool that is then read from history.
use mcp_webtools.Prelude.{
  Outcome, ok, err, ◌≡◌, refl, ap, Bool, true, false, List, [], ◌∷◌, ◌++◌, arith, if◌then◌else◌,
  take, pos, Bytes, codes, same, same_refl, is_empty,
}
use mcp_webtools.Storage.{DbError, record_not_found}
use mcp_webtools.Storage.Agents.{agent, AgentCredential}
use mcp_webtools.Storage.History.{Call, Calls, list_tool_calls, record_tool_call}
use mcp_webtools.Storage.History.Rows.{filter, All, matches, chosen, Holds, older}
use mcp_webtools.Storage.History.Pages.{page_of}
use mcp_webtools.Auth
use mcp_webtools.Utf8.Valid.{empty, one}
use mcp_webtools.Fetch.Fetcher.{Fetcher, Result}
use mcp_webtools.McpServer.{McpServer, serve_fetch}
use mcp_webtools.McpServer.Listed.{
  IsNew, Records, insert_call, stored_call, answered_row, calls_by, serve_fetch-listed,
}
use mcp_webtools.ToolTests.{accounts_and, cred, server, request_of, tiny, out, fetch_program}

unfoldable first_of : Bytes → List Call → Outcome DbError Call
first_of id [] = err record_not_found
first_of id (c ∷ t) = let rest = first_of id t in if same c.id id then ok c else rest

abbrev Db : Type 0
Db = List AgentCredential × List Call

-- The newest row stands first.
abbrev calls_table : Calls Db
calls_table = record {
  create = λ c db. ok (db.0, c ∷ db.1);
  first = λ id db. first_of id db.1;
  find = λ s db. ok (take s.limit (filter (chosen (λ a b. false) s) db.1));
  delete_before = λ t db. (0, ok db);
  id_lt = λ a b. false;
}

abbrev id_lt : Bytes → Bytes → Bool
id_lt a b = false

newer :
    (c : Call) (ds : List Call)
    → IsNew c ds
    → All (λ d. (older id_lt d c ≡ true) × (older id_lt c d ≡ false)) ds
newer c [] h = tt
newer c (d ∷ ds) h = ((ground arith, ground arith), newer c ds h.1)

still_found :
    (c : Call) (ds t : List Call)
    → IsNew c ds
    → All (λ d. (first_of d.id t ≡ ok d) × (is_empty d.id ≡ false)) ds
    → All (λ d. (first_of d.id (c ∷ t) ≡ ok d) × (is_empty d.id ≡ false)) ds
unfolding first_of
still_found c [] t h found = tt
still_found c (d ∷ ds) t h found =
    ((rw (h.0.1, if◌then◌else◌) found.0.0, found.0.1), still_found c ds t h.1 found.1)

calls-Records : Records calls_table (λ db. db.1)
unfolding first_of
calls-Records = record {
  creates = λ c db h named new. (
    (db.0, c ∷ db.1),
    refl,
    record {
      newest_first = (ground arith, newer c db.1 new, h.newest_first);
      found =
          ((rw (same_refl c.id, if◌then◌else◌) refl, named), still_found c db.1 db.1 new h.found);
      selects = λ s. refl;
    },
  );
}

abbrev history_server : McpServer Db
history_server = record {
  accounts = accounts_and (List Call);
  hash_token = λ s. s;
  has_db = true;
  insert = insert_call calls_table (codes "f") 7;
  parse = server.parse;
  encode_in = server.encode_in;
  encode_out = server.encode_out;
  encode_error = server.encode_error;
  error_text = server.error_text;
}

abbrev earlier : Call
earlier = record {
  id = codes "e";
  actor_id = 1 ∷ [];
  tool = codes "fetch";
  input_json = codes "{}";
  is_error = false;
  duration_ms = 1;
  output_size = 2;
  output_json = codes "{}";
  truncated = false;
  called_at = 3;
}

abbrev db : Db
db = (cred 1 ∷ cred 2 ∷ [], earlier ∷ [])

db-Holds : Holds calls_table (earlier ∷ []) db
unfolding first_of fetch_program
db-Holds = record { newest_first = (refl, tt, tt); found = ((refl, refl), tt); selects = λ s. refl }

abbrev served : Outcome Auth.Challenge (Outcome Bytes Result) × (Fetcher × Db)
served = serve_fetch history_server (request_of 1) (tiny, db)

served_out : served.0 ≡ ok (ok out)
unfolding fetch_program record_tool_call
served_out = refl

serve_fetch-listed_example :
    list_tool_calls calls_table (calls_by (1 ∷ []) (pos 0)) served.1.1
    ≡ page_of calls_table (calls_by (1 ∷ []) (pos 0)) (
        stored_call (codes "f") 7 (answered_row history_server (request_of 1) (1 ∷ []) out)
        ∷ filter (matches (calls_by (1 ∷ []) (pos 0))) (earlier ∷ []))
unfolding fetch_program
serve_fetch-listed_example =
    serve_fetch-listed history_server calls_table (λ d. d.1) calls-Records (codes "f") 7
      (request_of 1) tiny served.1.0 db served.1.1 out (codes "wt_" ++ 1 ∷ [])
      (record { id = 1 ∷ []; name = 1 ∷ []; kind = agent }) (pos 0) refl (λ row d. refl)
      (one (omega arith) (one (omega arith) empty)) refl (omega arith) refl refl db-Holds
      ((omega arith, refl), tt) (ap (λ a. (a, served.1)) served_out)
