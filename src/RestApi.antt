-- ===== src/RestApi.antt =====
-- internal/restapi: the handlers of the REST API. The database's statements, the parser of integers of
-- the standard library, the random bytes and the clock are parameters.
pub mod Answers
pub mod Silent
pub mod Labels
pub mod Revokes
pub mod Issues
use mcp_webtools.Prelude.{
  Outcome, ok, err, ℕ, Option, none, some, List, [], ◌∷◌, map, ℤ, Bytes, codes,
}
use mcp_webtools.Storage.{
  DbError, StorageError, invalid_token, empty_display_name, tool_call_not_found, unknown_cursor,
  no_randomness, database,
}
use mcp_webtools.Storage.Agents.{
  Actor, AgentCredential, Accounts, answer, issue_agent_token, list_agent_credentials,
  actor_names_by_id, actors_with_active_token, revoke_agent_token, revoke_all_agent_credentials,
}
use mcp_webtools.Storage.Agents
use mcp_webtools.Storage.History.{Call, Calls, HistoryFilter, list_tool_calls, get_tool_call}
use mcp_webtools.HumanAuth.Provider.{Identity}
use mcp_webtools.RestApi.Answers.{
  Body, no_body, error_body, agents_body, agent_body, credentials_body, token_body, calls_body,
  entry_body, tools_body, me_body, Response, write_error, error_text, name_in, is_seen, actor_ids,
  HistoryQuery, read_limit, read_is_error, me_handler,
}
use mcp_webtools.HumanAuth.{
  Request, Denied, rest_handler, Route, list_history, list_history_tools, get_history_entry,
  list_agents, create_agent, delete_agent, list_agent_tokens, issue_token, revoke_token, me,
}

-- What a request brings: the `id` of its path, its decoded body, and its query. `fresh_id` and
-- `random` are what the generators of the server give it.
pub record Arguments : Type 0 where
  pub id : Bytes
  pub display_name : Option Bytes
  pub query : HistoryQuery
  pub fresh_id : Bytes
  pub random : Option Bytes
  pub now : ℕ

module _ {Db : Type 0} (q : Accounts Db) (calls : Calls Db)
    (distinct_tools : Db → Outcome DbError (List Bytes)) (hash_token : Bytes → Bytes)
    (atoi : Bytes → Option ℤ) (internal : Bytes) where
  abbrev pub internal_error : StorageError → Response
  internal_error e = write_error 500 (error_text internal e)

  unfoldable pub list_agents_handler : Db → Response
  list_agents_handler db = elim (Agents.list_agents q db) [
    | err e ↦ internal_error e
    | ok agents ↦ elim (actors_with_active_token q db) [
      | err e ↦ internal_error e
      | ok active ↦ record {
        status = 200;
        body = agents_body (map (λ a. (a, is_seen a.id active)) agents);
      }
    ]
  ]

  unfoldable pub create_agent_handler : Arguments → Db → Response × Db
  create_agent_handler r db = elim r.display_name [
    | none ↦ (write_error 400 (codes "body must be a JSON object with display_name"), db)
    | some name ↦
        let (created, next) = Agents.create_agent q r.fresh_id name db in
        (
          elim created [
            | err empty_display_name ↦ write_error 400 (error_text internal empty_display_name)
            | err e ↦ internal_error e
            | ok agent ↦ record { status = 201; body = agent_body agent }
          ],
          next,
        )
  ]

  -- 204 where the statement ran.
  abbrev pub done : Outcome StorageError (Unit {0}) → Response
  done (err e) = internal_error e
  done (ok _) = record { status = 204; body = no_body }

  unfoldable pub delete_agent_handler : Arguments → Db → Response × Db
  delete_agent_handler r db =
      let (result, next) = revoke_all_agent_credentials q r.id r.now db in (done result, next)

  unfoldable pub list_agent_tokens_handler : Arguments → Db → Response
  list_agent_tokens_handler r db = elim (list_agent_credentials q r.id db) [
    | err e ↦ internal_error e
    | ok creds ↦ record { status = 200; body = credentials_body creds }
  ]

  unfoldable pub issue_token_handler : Arguments → Db → Response × Db
  issue_token_handler r db =
      let (result, next) = issue_agent_token q hash_token r.fresh_id r.random r.id db in
      (
        elim result [
          | err e ↦ internal_error e
          | ok token ↦ record { status = 201; body = token_body token }
        ],
        next,
      )

  unfoldable pub revoke_token_handler : Arguments → Db → Response × Db
  revoke_token_handler r db =
      let (result, next) = revoke_agent_token q r.id r.now db in (done result, next)

  unfoldable pub list_history_handler : HistoryQuery → Db → Response
  unfolding actor_ids
  list_history_handler r db = elim (read_limit atoi r.limit) [
    | none ↦ write_error 400 (codes "limit must be an integer")
    | some limit ↦ elim (read_is_error r.is_error) [
      | none ↦ write_error 400 (codes "is_error must be \"true\" or \"false\"")
      | some is_error ↦
          elim (list_tool_calls calls
            (record {
              actor_id = r.actor;
              tool = r.tool;
              is_error = is_error;
              limit = limit;
              cursor = r.cursor;
            })
            db) [
              | err unknown_cursor ↦ write_error 400 (error_text internal unknown_cursor)
              | err e ↦ internal_error e
              | ok (page, next) ↦ elim (actor_names_by_id q (actor_ids [] page) db) [
                | err e ↦ internal_error e
                | ok names ↦ record { status = 200; body = calls_body page next names }
              ]
            ]
    ]
  ]

  unfoldable pub get_history_entry_handler : Arguments → Db → Response
  unfolding name_in
  get_history_entry_handler r db = elim (get_tool_call calls r.id db) [
    | err tool_call_not_found ↦ write_error 404 (error_text internal tool_call_not_found)
    | err e ↦ internal_error e
    | ok call ↦ elim (actor_names_by_id q (call.actor_id ∷ []) db) [
      | err e ↦ internal_error e
      | ok names ↦ record { status = 200; body = entry_body call (name_in call.actor_id names) }
    ]
  ]

  unfoldable pub list_history_tools_handler : Db → Response
  list_history_tools_handler db = elim (answer (distinct_tools db)) [
    | err e ↦ internal_error e
    | ok tools ↦ record { status = 200; body = tools_body tools }
  ]

  -- The handler of each route. `actor` and `role` are those of the request's context, which
  -- `require_human_auth` has set.
  unfoldable pub serve : Arguments → Route → Actor → Bytes → Db → Response × Db
  serve r list_history actor role db = (list_history_handler r.query db, db)
  serve r list_history_tools actor role db = (list_history_tools_handler db, db)
  serve r get_history_entry actor role db = (get_history_entry_handler r db, db)
  serve r list_agents actor role db = (list_agents_handler db, db)
  serve r create_agent actor role db = create_agent_handler r db
  serve r delete_agent actor role db = delete_agent_handler r db
  serve r list_agent_tokens actor role db = (list_agent_tokens_handler r db, db)
  serve r issue_token actor role db = issue_token_handler r db
  serve r revoke_token actor role db = revoke_token_handler r db
  serve r me actor role db = (me_handler (some actor) (some role), db)

  -- `NewHandler`: the routes of the REST API behind the authentication of humans.
  unfoldable pub new_handler :
      (Request → Db → Option Identity × Db)
      → (Identity → Db → Option Actor × Db)
      → Arguments
      → Request
      → Db
      → Outcome Denied Response × Db
  new_handler authenticate get_or_create args =
      rest_handler authenticate get_or_create (λ route actor role db.
        let (response, next) = serve args route actor role db in (ok response, next))
