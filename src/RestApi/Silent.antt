-- ===== src/RestApi/Silent.antt =====
-- What the answers of the REST API say of failures inside the server.
use mcp_webtools.Prelude.{Outcome, ◌≡◌, refl, Option, List, ℤ, Bytes}
use mcp_webtools.Storage.{DbError}
use mcp_webtools.Storage.Agents.{Actor, Accounts}
use mcp_webtools.Storage.History.{Calls}
use mcp_webtools.HumanAuth.{
  Route, list_history, list_history_tools, get_history_entry, list_agents, create_agent,
  delete_agent, list_agent_tokens, issue_token, revoke_token, me,
}
use mcp_webtools.RestApi.{
  Arguments, list_agents_handler, create_agent_handler, delete_agent_handler,
  list_agent_tokens_handler, issue_token_handler, revoke_token_handler, list_history_handler,
  get_history_entry_handler, list_history_tools_handler, serve,
}
use mcp_webtools.RestApi.Answers.{write_error}

module _ {Db : Type 0} (q : Accounts Db) (calls : Calls Db)
    (distinct_tools : Db → Outcome DbError (List Bytes)) (hash_token : Bytes → Bytes)
    (atoi : Bytes → Option ℤ) (one other : Bytes) where
  -- The answer of every handler of the REST API is the same whatever the text of an error of the
  -- database or of the source of randomness is.
  pub serve-silent :
      (r : Arguments) (route : Route) (actor : Actor) (role : Bytes) (db : Db)
      → serve q calls distinct_tools hash_token atoi one r route actor role db
        ≡ serve q calls distinct_tools hash_token atoi other r route actor role db
  unfolding serve list_agents_handler create_agent_handler delete_agent_handler
      list_agent_tokens_handler issue_token_handler revoke_token_handler list_history_handler
      get_history_entry_handler list_history_tools_handler write_error
  serve-silent r list_history actor role db = refl
  serve-silent r list_history_tools actor role db = refl
  serve-silent r get_history_entry actor role db = refl
  serve-silent r list_agents actor role db = refl
  serve-silent r create_agent actor role db = refl
  serve-silent r delete_agent actor role db = refl
  serve-silent r list_agent_tokens actor role db = refl
  serve-silent r issue_token actor role db = refl
  serve-silent r revoke_token actor role db = refl
  serve-silent r me actor role db = refl
