-- ===== src/SurfaceTests.antt =====
-- Runs of the REST API, and of the bearer check after it.
use mcp_webtools.Prelude.{
  ok, err, ℕ, ◌≡◌, refl, false, Option, none, some, List, [], ◌∷◌, ◌++◌, length, Bytes, codes, same,
}
use mcp_webtools.AccountTests.{accounts, accounts-Keeps, accounts-Inserts}
use mcp_webtools.Storage.{DbError}
use mcp_webtools.Storage.Agents.{
  Actor, human, agent, AgentCredential, note_use, authenticate_agent_token,
}
use mcp_webtools.Storage.Agents.Revoked.{find_live, revoke_rows}
use mcp_webtools.Storage.History.{Call, Calls}
use mcp_webtools.HumanAuth.Provider.{Identity}
use mcp_webtools.HumanAuth.{Request, list_history, delete_agent, issue_token}
use mcp_webtools.Auth
use mcp_webtools.Auth.{cut_prefix, scheme, require_bearer}
use mcp_webtools.RestApi.{new_handler, Arguments, serve}
use mcp_webtools.RestApi.Answers.{no_body, token_body}
use mcp_webtools.RestApi.Silent.{serve-silent}
use mcp_webtools.RestApi.Issues.{issue_token-require_bearer}
use mcp_webtools.RestApi.Revokes.{delete_agent-require_bearer}

program : Unit {0}
unfolding find_live revoke_rows note_use same cut_prefix require_bearer authenticate_agent_token
program = tt

abbrev call : ℕ → Bytes → Call
call id actor = record {
  id = id ∷ [];
  actor_id = actor;
  tool = codes "fetch";
  input_json = codes "{}";
  is_error = false;
  duration_ms = 1;
  output_size = 2;
  output_json = codes "{}";
  truncated = false;
  called_at = id;
}

abbrev calls_table : Calls (List AgentCredential)
calls_table = record {
  create = λ c db. err DbError.failed;
  first = λ id db. err DbError.failed;
  find = λ s db. err DbError.failed;
  delete_before = λ t db. (0, err DbError.failed);
  id_lt = λ a b. false;
}

abbrev arguments : Arguments
arguments = record {
  id = 1 ∷ [];
  display_name = none;
  query = record { limit = []; is_error = []; actor = []; tool = []; cursor = [] };
  fresh_id = codes "f";
  random = none;
  now = 7;
}

abbrev admin : Actor
admin = record { id = codes "h"; name = codes "Ada"; kind = human }

-- The statement fails, and the answer says no more than that.
serve-silent_example :
    serve accounts calls_table
      (λ db. err DbError.failed)
      (λ s. s)
      (λ s. none)
      (codes "disk full")
      arguments
      list_history
      admin
      (codes "admin")
      []
    ≡ serve accounts calls_table
        (λ db. err DbError.failed)
        (λ s. s)
        (λ s. none)
        (codes "no such host")
        arguments
        list_history
        admin
        (codes "admin")
        []
serve-silent_example =
    serve-silent accounts calls_table (λ db. err DbError.failed) (λ s. s) (λ s. none)
      (codes "disk full") (codes "no such host") arguments list_history admin (codes "admin") []

abbrev page : List Call
page = call 3 (codes "a") ∷ call 2 (codes "b") ∷ call 1 (codes "a") ∷ []

abbrev cred : ℕ → AgentCredential
cred n = record {
  id = n ∷ [];
  actor_id = n ∷ [];
  token_hash = codes "wt_" ++ n ∷ [];
  last_used_at = none;
  revoked_at = none;
}

abbrev identity : Identity
identity = record { subject = codes "s"; display_name = codes "Ada"; role = codes "admin" }

abbrev log_in : Request → List AgentCredential → Option Identity × List AgentCredential
log_in r db = (some identity, db)

abbrev provision : Identity → List AgentCredential → Option Actor × List AgentCredential
provision i db = (some admin, db)

abbrev greet : Actor → List AgentCredential → ℕ × List AgentCredential
greet actor db = (length actor.id, db)

abbrev request : Request
request = record { wants_html = false; route = delete_agent }

delete_agent-require_bearer_example :
    let after =
      new_handler accounts calls_table
        (λ db. err DbError.failed)
        (λ s. s)
        (λ s. none)
        []
        log_in
        provision
        arguments
        request
        (cred 1 ∷ cred 2 ∷ []) in
    (after.0 ≡ ok (record { status = 204; body = no_body }))
    × (require_bearer
          (authenticate_agent_token accounts (λ s. s) 9)
          greet
          (codes "Bearer wt_" ++ 1 ∷ [])
          after.1
        ≡ (err Auth.invalid_token, after.1))
unfolding program
delete_agent-require_bearer_example =
    delete_agent-require_bearer accounts calls_table (λ db. err DbError.failed) (λ s. s) (λ s. none)
      [] (λ db. db) accounts-Keeps log_in provision greet arguments request (cred 1 ∷ cred 2 ∷ [])
      (cred 1 ∷ cred 2 ∷ []) (cred 1 ∷ cred 2 ∷ []) identity admin 9 (codes "wt_" ++ 1 ∷ [])
      (cred 1) refl refl refl refl ((refl, tt), (tt, tt)) refl refl refl

abbrev issuing : Arguments
issuing = record arguments { id = codes "a"; fresh_id = codes "d"; random = some (codes "x") }

abbrev the_agent : Actor
the_agent = record { id = codes "a"; name = codes "a"; kind = agent }

issue_token-require_bearer_example :
    let after =
      new_handler accounts calls_table
        (λ db. err DbError.failed)
        (λ s. s)
        (λ s. none)
        []
        log_in
        provision
        issuing
        (record { wants_html = false; route = issue_token })
        (cred 1 ∷ []) in
    let known = (authenticate_agent_token accounts (λ s. s) 9 (codes "wt_x") after.1).1 in
    (after.0 ≡ ok (record { status = 201; body = token_body (codes "wt_x") }))
    × (require_bearer
          (authenticate_agent_token accounts (λ s. s) 9)
          greet
          (codes "Bearer wt_x")
          after.1
        ≡ (ok (greet the_agent known).0, (greet the_agent known).1))
unfolding program
issue_token-require_bearer_example =
    issue_token-require_bearer accounts calls_table (λ db. err DbError.failed) (λ s. s) (λ s. none)
      [] (λ db. db) accounts-Keeps accounts-Inserts log_in provision greet issuing
      (record { wants_html = false; route = issue_token }) (cred 1 ∷ []) (cred 1 ∷ []) (cred 1 ∷ [])
      identity admin the_agent (codes "x") 9 refl refl refl refl refl refl (refl, tt)
