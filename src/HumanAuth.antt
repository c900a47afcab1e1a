-- ===== src/HumanAuth.antt =====
-- internal/humanauth/middleware.go, the role of internal/humanauth/oidc_handlers.go, and the routes of
-- internal/restapi/router.go: who may call what. The provider and the storage are parameters.
pub mod Gate
pub mod Provider
pub mod Crypto
pub mod Session
use mcp_webtools.Prelude.{
  Outcome, err, Bool, true, false, Option, none, some, if◌then◌else◌, Bytes, codes, same,
}
use mcp_webtools.HumanAuth.Provider.{Identity}

-- A request: whether its `Accept` header names text/html, and the route that it matches.
pub data Route : Type 0 where
  list_history list_history_tools get_history_entry : Route
  list_agents create_agent delete_agent list_agent_tokens issue_token : Route
  revoke_token me : Route

pub record Request : Type 0 where
  pub wants_html : Bool
  pub route : Route

pub data Denied : Type 0 where
  redirect_to_login unauthorized internal_error forbidden : Denied

-- `r.With(RequireAdmin)` and the group under /actors.
unfoldable pub needs_admin : Route → Bool
needs_admin list_history = false
needs_admin list_history_tools = false
needs_admin get_history_entry = false
needs_admin list_agents = true
needs_admin create_agent = true
needs_admin delete_agent = true
needs_admin list_agent_tokens = true
needs_admin issue_token = true
needs_admin revoke_token = true
needs_admin me = false

-- The role is that of the request's context, `none` where `require_human_auth` did not run.
unfoldable pub require_admin :
    {Db R : Type 0} → (Db → Outcome Denied R × Db) → Option Bytes → Db → Outcome Denied R × Db
require_admin next role db = elim role [
  | none ↦ (err forbidden, db)
  | some r ↦ if same r (codes "admin") then next db else (err forbidden, db)
]

module _ {Db Actor R : Type 0} where
  unfoldable pub require_human_auth :
      (Request → Db → Option Identity × Db)
      → (Identity → Db → Option Actor × Db)
      → (Actor → Bytes → Db → Outcome Denied R × Db)
      → Request
      → Db
      → Outcome Denied R × Db
  require_human_auth authenticate get_or_create next r db =
      let (found, db1) = authenticate r db in
      elim found [
        | none ↦ (err (if r.wants_html then redirect_to_login else unauthorized), db1)
        | some identity ↦
            let (actor, db2) = get_or_create identity db1 in
            elim actor [ none ↦ (err internal_error, db2) | some a ↦ next a identity.role db2 ]
      ]

  -- `handle` runs the handler of a route.
  unfoldable pub rest_handler :
      (Request → Db → Option Identity × Db)
      → (Identity → Db → Option Actor × Db)
      → (Route → Actor → Bytes → Db → Outcome Denied R × Db)
      → Request
      → Db
      → Outcome Denied R × Db
  unfolding require_human_auth require_admin needs_admin
  rest_handler authenticate get_or_create handle r db =
      require_human_auth authenticate get_or_create
        (λ a role db2.
          if needs_admin r.route
          then require_admin (handle r.route a role) (some role) db2
          else handle r.route a role db2)
        r db
