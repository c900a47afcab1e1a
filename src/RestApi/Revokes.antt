-- ===== src/RestApi/Revokes.antt =====
-- From the REST API to the MCP surface: an agent that an administrator deletes.
use mcp_webtools.Prelude.{
  Outcome, ok, err, ℕ, ◌≡◌, refl, ap, ◌∙◌, false, Option, some, List, ◌++◌, arith, ℤ, Bytes, codes,
  same_iff, is_empty,
}
use mcp_webtools.Storage.{DbError, StorageError, invalid_token}
use mcp_webtools.Storage.Agents.{
  Actor, AgentCredential, Accounts, authenticate_agent_token, revoke_all_agent_credentials,
}
use mcp_webtools.Storage.Agents.Revoked.{Keeps, IsUnique, revoke_all-authenticate}
use mcp_webtools.Storage.History.{Calls}
use mcp_webtools.Auth
use mcp_webtools.Auth.{cut_prefix, scheme, require_bearer}
use mcp_webtools.Auth.Bearer.{cut_prefix-append, require_bearer-refuses}
use mcp_webtools.HumanAuth.Provider.{Identity}
use mcp_webtools.HumanAuth.{Request, delete_agent, require_admin, require_human_auth, rest_handler}
use mcp_webtools.RestApi.{Arguments, delete_agent_handler, serve, new_handler}
use mcp_webtools.RestApi.Answers.{no_body}

module _ {Db : Type 0} (q : Accounts Db) (calls : Calls Db)
    (distinct_tools : Db → Outcome DbError (List Bytes)) (hash_token : Bytes → Bytes)
    (atoi : Bytes → Option ℤ) (internal : Bytes) where
  module _ (rows : Db → List AgentCredential) (keeps : Keeps q rows)
      (authenticate : Request → Db → Option Identity × Db)
      (get_or_create : Identity → Db → Option Actor × Db) where
    deleted :
        (args : Arguments) (r : Request) (db db1 db2 : Db) (identity : Identity) (actor : Actor)
        → r.route ≡ delete_agent
        → authenticate r db ≡ (some identity, db1)
        → get_or_create identity db1 ≡ (some actor, db2)
        → identity.role ≡ codes "admin"
        → new_handler q calls distinct_tools hash_token atoi internal authenticate get_or_create
            args r db
          ≡ (
            ok (record { status = 204; body = no_body }),
            (revoke_all_agent_credentials q args.id args.now db2).1,
          )
    unfolding new_handler rest_handler require_human_auth require_admin serve delete_agent_handler
        revoke_all_agent_credentials
    deleted args r db db1 db2 identity actor at who known admin =
        let (next, ran, table) = keeps.revokes args.id args.now db2 in
        ground (arith, at, who, known, (same_iff identity.role (codes "admin")).1 admin, ran)

    -- Where the statements do what SQL says of them and hashes are unique, an administrator's
    -- DELETE of an agent is answered 204, and a bearer token that is not empty, that authenticated
    -- the agent until then, is refused by the MCP surface at any later time with the database
    -- unchanged.
    pub delete_agent-require_bearer :
        {R : Type 0} (serve_mcp : Actor → Db → R × Db) (args : Arguments) (r : Request)
        (db db1 db2 : Db) (identity : Identity) (actor : Actor) (later : ℕ) (raw : Bytes)
        (c : AgentCredential)
        → r.route ≡ delete_agent
        → authenticate r db ≡ (some identity, db1)
        → get_or_create identity db1 ≡ (some actor, db2)
        → identity.role ≡ codes "admin"
        → IsUnique (rows db2)
        → q.first_live (hash_token raw) db2 ≡ ok c
        → c.actor_id ≡ args.id
        → is_empty raw ≡ false
        → let after =
            new_handler q calls distinct_tools hash_token atoi internal authenticate get_or_create
              args r db in
          (after.0 ≡ ok (record { status = 204; body = no_body }))
          × (require_bearer
                (authenticate_agent_token q hash_token later)
                serve_mcp
                (scheme ++ raw)
                after.1
              ≡ (err Auth.invalid_token, after.1))
    delete_agent-require_bearer serve_mcp args r db db1 db2 identity actor later raw c at who known
          admin unique live own named =
        let run = deleted args r db db1 db2 identity actor at who known admin in
        let refused =
          (revoke_all-authenticate q rows keeps args.id args.now db2 unique hash_token later raw c
              live).0
            own in
        let barred =
          require_bearer-refuses (authenticate_agent_token q hash_token later) serve_mcp
            (scheme ++ raw) raw (revoke_all_agent_credentials q args.id args.now db2).1
            invalid_token (cut_prefix-append scheme raw) named
            (ap (λ (o : Outcome StorageError Actor × Db). o.0) refused)
          ∙ ap (λ (o : Outcome StorageError Actor × Db). (err Auth.invalid_token, o.1)) refused in
        rw run (refl, barred)
