-- ===== src/RestApi/Issues.antt =====
-- From the REST API to the MCP surface: a token that an administrator issues.
use mcp_webtools.Prelude.{
  Outcome, ok, ℕ, ◌≡◌, refl, Option, some, List, ◌++◌, arith, ℤ, Bytes, codes, same_iff,
}
use mcp_webtools.Storage.{DbError}
use mcp_webtools.Storage.Agents.{
  Actor, AgentCredential, Accounts, token_prefix, issue_agent_token, authenticate_agent_token,
}
use mcp_webtools.Storage.Agents.Revoked.{Keeps}
use mcp_webtools.Storage.Agents.Issued.{IsFreshHash, Inserts, issue-authenticate}
use mcp_webtools.Storage.History.{Calls}
use mcp_webtools.Auth.{scheme, require_bearer}
use mcp_webtools.Auth.Bearer.{cut_prefix-append, admitted}
use mcp_webtools.HumanAuth.Provider.{Identity}
use mcp_webtools.HumanAuth.{Request, issue_token, require_admin, require_human_auth, rest_handler}
use mcp_webtools.RestApi.{Arguments, issue_token_handler, serve, new_handler}
use mcp_webtools.RestApi.Answers.{token_body}

module _ {Db : Type 0} (q : Accounts Db) (calls : Calls Db)
    (distinct_tools : Db → Outcome DbError (List Bytes)) (hash_token : Bytes → Bytes)
    (atoi : Bytes → Option ℤ) (internal : Bytes) (rows : Db → List AgentCredential)
    (keeps : Keeps q rows) (inserts : Inserts q rows)
    (authenticate : Request → Db → Option Identity × Db)
    (get_or_create : Identity → Db → Option Actor × Db) where
  issued :
      (args : Arguments) (r : Request) (db db1 db2 : Db) (identity : Identity) (human : Actor)
      (text raw : Bytes)
      → r.route ≡ issue_token
      → authenticate r db ≡ (some identity, db1)
      → get_or_create identity db1 ≡ (some human, db2)
      → identity.role ≡ codes "admin"
      → args.random ≡ some text
      → (issue_agent_token q hash_token args.fresh_id (some text) args.id db2).0 ≡ ok raw
      → new_handler q calls distinct_tools hash_token atoi internal authenticate get_or_create args
          r db
        ≡ (
          ok (record { status = 201; body = token_body raw }),
          (issue_agent_token q hash_token args.fresh_id (some text) args.id db2).1,
        )
  unfolding new_handler rest_handler require_human_auth require_admin serve issue_token_handler
  issued args r db db1 db2 identity human text raw at who known admin random good =
      ground (arith, at, who, known, (same_iff identity.role (codes "admin")).1 admin, random, good)

  -- Where the statements do what SQL says of them, an administrator's request to issue a token for
  -- an agent that is there is answered 201 with the prefix and the random text, and with that
  -- token as its bearer token the MCP surface runs for that agent at any later time, given that
  -- the token's hash is new to the table.
  pub issue_token-require_bearer :
      {R : Type 0} (serve_mcp : Actor → Db → R × Db) (args : Arguments) (r : Request)
      (db db1 db2 : Db) (identity : Identity) (human agent : Actor) (text : Bytes) (later : ℕ)
      → r.route ≡ issue_token
      → authenticate r db ≡ (some identity, db1)
      → get_or_create identity db1 ≡ (some human, db2)
      → identity.role ≡ codes "admin"
      → args.random ≡ some text
      → q.first_actor args.id db2 ≡ ok agent
      → IsFreshHash (hash_token (token_prefix ++ text)) (rows db2)
      → let after =
          new_handler q calls distinct_tools hash_token atoi internal authenticate get_or_create
            args r db in
        let token = token_prefix ++ text in
        let known = (authenticate_agent_token q hash_token later token after.1).1 in
        (after.0 ≡ ok (record { status = 201; body = token_body token }))
        × (require_bearer
              (authenticate_agent_token q hash_token later)
              serve_mcp
              (scheme ++ token)
              after.1
            ≡ (ok (serve_mcp agent known).0, (serve_mcp agent known).1))
  issue_token-require_bearer serve_mcp args r db db1 db2 identity human agent text later at who
        known admin random there fresh =
      let token = token_prefix ++ text in
      let (made, good) =
        issue-authenticate q rows keeps inserts hash_token args.fresh_id text args.id agent db2
          later fresh there in
      let ran = issued args r db db1 db2 identity human text token at who known admin random made in
      rw ran (
        refl,
        admitted (authenticate_agent_token q hash_token later) serve_mcp (scheme ++ token) token
            (issue_agent_token q hash_token args.fresh_id (some text) args.id db2).1 agent
            (cut_prefix-append scheme token) refl good,
      )
