-- ===== src/RestApi/Answers.antt =====
-- What the handlers of internal/restapi read and write: json.go, the types of agents.go and history.go,
-- and me.go.
use mcp_webtools.Prelude.{
  ℕ, Bool, true, false, not, ◌&&◌, ◌||◌, Option, none, some, List, [], ◌∷◌, leb, if◌then◌else◌, ℤ,
  pos, Bytes, codes, same, is_empty,
}
use mcp_webtools.Storage.{
  StorageError, invalid_token, empty_display_name, tool_call_not_found, unknown_cursor,
  no_randomness, database,
}
use mcp_webtools.Storage.Agents.{Actor, AgentCredential}
use mcp_webtools.Storage.History.{Call}

-- What is written as JSON. `no_body` is the answer of status 204.
pub data Body : Type 0 where
  no_body : Body
  error_body : Bytes → Body
  agents_body : List (Actor × Bool) → Body
  agent_body : Actor → Body
  credentials_body : List AgentCredential → Body
  token_body : Bytes → Body
  calls_body : List Call → Bytes → List (Bytes × Bytes) → Body
  entry_body : Call → Bytes → Body
  tools_body : List Bytes → Body
  me_body : Bytes → Bytes → Bytes → Body

pub record Response : Type 0 where
  pub status : ℕ
  pub body : Body

unfoldable pub write_error : ℕ → Bytes → Response
write_error status message = record {
  status = status;
  body = error_body (if leb 500 status then codes "internal error" else message);
}

-- `err.Error()`: the texts of the errors that the storage declares. That of the database and of the
-- source of randomness is `internal`.
abbrev pub error_text : Bytes → StorageError → Bytes
error_text internal invalid_token = codes "invalid or revoked token"
error_text internal empty_display_name = codes "display name must not be empty"
error_text internal tool_call_not_found = codes "tool call not found"
error_text internal unknown_cursor = codes "unknown pagination cursor"
error_text internal no_randomness = internal
error_text internal database = internal

-- A name in the map, or the empty string.
unfoldable pub name_in : Bytes → List (Bytes × Bytes) → Bytes
name_in id [] = []
name_in id ((k, name) ∷ names) = let rest = name_in id names in if same k id then name else rest

unfoldable pub is_seen : Bytes → List Bytes → Bool
is_seen id [] = false
is_seen id (k ∷ seen) = same k id || is_seen id seen

-- The IDs of the actors of the calls, each where it appears first.
unfoldable pub actor_ids : List Bytes → List Call → List Bytes
actor_ids seen [] = []
actor_ids seen (c ∷ calls) = elim (is_seen c.actor_id seen) [
  | true ↦ actor_ids seen calls
  | false ↦ c.actor_id ∷ actor_ids (c.actor_id ∷ seen) calls
]

-- The parameters of the listing's URL; a parameter that is not there is empty.
pub record HistoryQuery : Type 0 where
  pub limit : Bytes
  pub is_error : Bytes
  pub actor : Bytes
  pub tool : Bytes
  pub cursor : Bytes

-- `none` where the parameter is refused.
abbrev pub read_limit : (Bytes → Option ℤ) → Bytes → Option ℤ
read_limit atoi raw = if is_empty raw then some (pos 0) else atoi raw

abbrev pub read_is_error : Bytes → Option (Option Bool)
read_is_error raw =
    if is_empty raw
    then some none
    else if not (same raw (codes "true")) && not (same raw (codes "false"))
    then none
    else some (some (same raw (codes "true")))

-- The actor and the role of the request's context, each where it is there.
unfoldable pub me_handler : Option Actor → Option Bytes → Response
unfolding write_error
me_handler none role = write_error 401 (codes "no authenticated actor")
me_handler (some actor) role = record {
  status = 200;
  body = me_body actor.id actor.name (elim role [ none ↦ [] | some r ↦ r ]);
}
