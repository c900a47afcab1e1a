-- ===== src/ServiceTests.antt =====
-- Runs of the storage, the authentication and the handlers on tables of a few rows.
use mcp_webtools.Prelude.{
  Outcome, ok, err, ℕ, suc, ◌≡◌, refl, ◌≢◌, Bool, true, false, Option, none, some, List, [], ◌∷◌,
  ◌++◌, ltb, if◌then◌else◌, length, take, pos, Bytes, codes, same,
}
use mcp_webtools.Fetch.Fetcher
use mcp_webtools.Fetch.Fetcher.{
  Url, Response, Origin, Result, FetchError, Fetcher, check, fetch_origin,
}
use mcp_webtools.Storage.{DbError, record_not_found, invalid_token}
use mcp_webtools.Storage.History.{
  Call, HistoryFilter, Calls, list_tool_calls, page_size, next_cursor, last_id,
}
use mcp_webtools.Storage.History.Rows.{filter, matches, chosen, Holds}
use mcp_webtools.Storage.History.Pages.{
  page_of, read_history, read_history_complete, list_tool_calls-after,
}
use mcp_webtools.Storage.Agents.{
  AgentCredential, authenticate_agent_token, revoke_all_agent_credentials,
}
use mcp_webtools.Storage.Agents.Revoked.{find_live, revoke_rows, revoke_all-authenticate}
use mcp_webtools.AccountTests.{accounts, accounts-Keeps}
use mcp_webtools.Auth.{cut_prefix, require_bearer}
use mcp_webtools.Health.{ReadyChecker}
use mcp_webtools.HumanAuth.{needs_admin}

program : Unit {0}
unfolding filter same list_tool_calls page_size next_cursor last_id read_history find_live
    revoke_rows needs_admin cut_prefix require_bearer
program = tt

abbrev call : ℕ → ℕ → Call
call id at = record {
  id = id ∷ [];
  actor_id = codes "a";
  tool = codes "fetch";
  input_json = codes "{}";
  is_error = false;
  duration_ms = 1;
  output_size = 2;
  output_json = codes "{}";
  truncated = false;
  called_at = at;
}

-- Two calls of the same time, told apart by their IDs, and an older one.
abbrev history : List Call
history = call 2 5 ∷ call 1 5 ∷ call 3 4 ∷ []

abbrev id_below : Bytes → Bytes → Bool
id_below (a ∷ s) (b ∷ t) = ltb a b
id_below _ _ = false

unfoldable row_of : Bytes → List Call → Outcome DbError Call
unfolding same
row_of id [] = err record_not_found
row_of id (c ∷ calls) = let rest = row_of id calls in if same c.id id then ok c else rest

abbrev calls_table : Calls (List Call)
calls_table = record {
  create = λ c db. ok (c ∷ db);
  first = row_of;
  find = λ s db. ok (take s.limit (filter (chosen id_below s) db));
  delete_before = λ t db. (0, ok db);
  id_lt = id_below;
}

abbrev history-Holds : Holds calls_table history history
unfolding program row_of
history-Holds = record {
  newest_first =
      (refl, ((refl, refl), ((refl, refl), tt)), (refl, ((refl, refl), tt), (refl, tt, tt)));
  found = ((refl, refl), ((refl, refl), ((refl, refl), tt)));
  selects = λ s. refl;
}

abbrev by_fetch : Bytes → HistoryFilter
by_fetch cursor = record {
  actor_id = [];
  tool = codes "fetch";
  is_error = none;
  limit = pos 1;
  cursor = cursor;
}

read_history_complete_example :
    read_history calls_table
      (suc (length (filter (matches (by_fetch [])) history)))
      (by_fetch [])
      history
    ≡ some (filter (matches (by_fetch [])) history)
read_history_complete_example =
    read_history_complete calls_table history history (by_fetch []) history-Holds refl

list_tool_calls-after_example :
    list_tool_calls calls_table (by_fetch (2 ∷ [])) history
    ≡ page_of calls_table (by_fetch (2 ∷ [])) (call 1 5 ∷ call 3 4 ∷ [])
unfolding program row_of
list_tool_calls-after_example =
    list_tool_calls-after calls_table history history (by_fetch (2 ∷ [])) [] (call 2 5)
      (call 1 5 ∷ call 3 4 ∷ []) history-Holds refl refl

abbrev cred : ℕ → AgentCredential
cred n = record {
  id = n ∷ [];
  actor_id = n ∷ [];
  token_hash = n ∷ n ∷ [];
  last_used_at = none;
  revoked_at = none;
}

abbrev two_creds : List AgentCredential
two_creds = cred 1 ∷ cred 2 ∷ []

-- The hash of a token is the token twice.
abbrev twice : Bytes → Bytes
twice s = s ++ s

revoke_all-authenticate_example :
    let gone = (revoke_all_agent_credentials accounts (1 ∷ []) 7 two_creds).1 in
    (((cred 1).actor_id ≡ 1 ∷ [])
      → authenticate_agent_token accounts twice 8 (1 ∷ []) gone ≡ (err invalid_token, gone))
    × (((cred 1).actor_id ≢ 1 ∷ []) → accounts.first_live (1 ∷ 1 ∷ []) gone ≡ ok (cred 1))
unfolding program
revoke_all-authenticate_example =
    revoke_all-authenticate accounts (λ db. db) accounts-Keeps (1 ∷ []) 7 two_creds
      ((refl, tt), (tt, tt)) twice 8 (1 ∷ []) (cred 1) refl

abbrev check_token : Bytes → ℕ → Outcome Bytes Bytes × ℕ
check_token token db = if same token (codes "wt_1") then (ok (codes "a"), suc db) else (err [], db)

abbrev greet : Bytes → ℕ → ℕ × ℕ
greet actor db = (length actor, suc db)

abbrev down : Origin
down = record { answer = λ u. none; in_time = false }

abbrev no_parse : Bytes → Option Url
no_parse s = none

abbrev tiny : Fetcher
tiny = Fetcher.new (pos 1) (pos 4) (pos 8) (pos 0)

abbrev no_db : ReadyChecker
no_db = record { ping = false; migrations_ready = true; oidc_ready = true }
