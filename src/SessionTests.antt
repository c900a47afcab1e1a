-- ===== src/SessionTests.antt =====
-- Runs of the sessions on a table of a few rows, with a toy cipher.
use mcp_webtools.Prelude.{
  ok, err, ℕ, ◌≡◌, refl, ap, Option, none, some, List, [], ◌∷◌, ◌++◌, arith, if◌then◌else◌, length,
  drop, drop-append, Bytes, codes, same, same_refl, ◌∙◌, inl, inr, false, ◌⊎◌, Outcome, Bool-cases,
  eq_of_same,
}
use mcp_webtools.Storage.{record_not_found}
use mcp_webtools.HumanAuth.{
  Request, Route, create_agent, Denied, forbidden, rest_handler, needs_admin,
}
use mcp_webtools.HumanAuth.Provider.{Identity}
use mcp_webtools.HumanAuth.Crypto.{Aead, Inverts, encrypt_refresh_token, decrypt_refresh_token}
use mcp_webtools.HumanAuth.Session.{
  Session, Sessions, Token, Claims, Keycloak, OidcProvider, CallbackRequest, no_such_session,
  role_for_groups, verify_and_extract, refresh, authenticate, create_session, callback, login,
  logout, drop_session, revalidate, store_refreshed,
}
use mcp_webtools.HumanAuth.Session.Lives.{
  Holds, Confirmed, authenticate-Confirmed, logout-authenticate,
}
use mcp_webtools.HumanAuth.Session.Revived.{Upserts, revalidate-logout}
use mcp_webtools.HumanAuth.Session.Roles.{HasAdmin}
use mcp_webtools.HumanAuth.Session.Admins.{by_cookie, callback-rest_handler}
use mcp_webtools.Startup.Config.{Flags, OidcConfig, configure}
use mcp_webtools.Startup.Oidc.{OidcWorld, new_oidc_handlers, configure-authenticate}
use mcp_webtools.HumanAuth.Session.Login.{LoggedIn, callback-LoggedIn}

program : Unit {0}
unfolding encrypt_refresh_token decrypt_refresh_token role_for_groups verify_and_extract refresh
    authenticate create_session callback logout drop_session revalidate store_refreshed same
    needs_admin
program = tt

abbrev toy : Aead
toy = record {
  nonce_size = 2;
  seal = λ key nonce text. nonce ++ text;
  unseal = λ key nonce text. some (drop (length nonce) text);
  encode = λ b. b;
  decode = λ b. some b;
}

toy-Inverts : Inverts toy
toy-Inverts = record {
  unseal-seal = λ key nonce text. ap some (drop-append nonce text);
  decode-encode = λ b. refl;
}

abbrev ten : Bytes
ten = codes "0123456789"

abbrev key : Bytes
key = ten ++ ten ++ ten ++ codes "01"

abbrev fresh : Bytes
fresh = codes "fn"

unfoldable get_session : Bytes → List Session → Option Session
get_session id [] = none
get_session id (s ∷ db) = let rest = get_session id db in if same s.id id then some s else rest

unfoldable delete_session : Bytes → List Session → List Session
delete_session id [] = []
delete_session id (s ∷ db) =
    let rest = delete_session id db in if same s.id id then rest else s ∷ rest

get-delete_session : (id : Bytes) (db : List Session) → get_session id (delete_session id db) ≡ none
unfolding get_session delete_session
get-delete_session id [] = refl
get-delete_session id (s ∷ db) = ground (arith, get-delete_session id db)

abbrev sessions : Sessions (List Session)
sessions = record {
  first = λ id db. elim (get_session id db) [ none ↦ err record_not_found | some s ↦ ok s ];
  create = λ s db. ok (s ∷ db);
  save = λ s db. ok (s ∷ db);
  delete = λ id db. ok (delete_session id db);
}

sessions-Holds : Holds sessions get_session
unfolding get_session
sessions-Holds = record {
  firsts = λ id db. refl;
  creates = λ s db next h. ground (arith, h, same_refl s.id);
  deletes = λ id db next h. ground (arith, h, get-delete_session id db);
}

abbrev keycloak : Keycloak
keycloak = record {
  refresh_exchange =
      λ t. some (record { refresh_token = codes "r2"; id_token = some (codes "id") });
  code_exchange = λ c. some (record { refresh_token = codes "r1"; id_token = some (codes "id") });
  verify = λ raw. some (record {
    subject = codes "s";
    preferred_username = codes "sam";
    name = [];
    groups = codes "/admins" ∷ [];
  });
  admin_group = codes "admins";
}

abbrev provider : OidcProvider (List Session)
provider = record {
  sessions = sessions;
  keycloak = keycloak;
  aead = toy;
  encryption_key = key;
  hash_session_id = λ s. s ++ s;
}

abbrev admin : Identity
admin = record { subject = codes "s"; display_name = codes "sam"; role = codes "admin" }

abbrev request : CallbackRequest
request = record { state = codes "q"; code = codes "c"; state_cookie = some (codes "q") }

-- The session that the login below leaves, with the refresh token under the toy cipher.
abbrev session : ℕ → Bytes → Session
session expires token = record {
  id = codes "uu";
  subject = codes "s";
  display_name = codes "sam";
  role = codes "admin";
  refresh_token = fresh ++ fresh ++ token;
  expires_at = expires;
}

callback-LoggedIn_example :
    LoggedIn provider 5 request (codes "u") (codes "u") (session 900_000_000_005 (codes "r1") ∷ [])
unfolding program
callback-LoggedIn_example =
    callback-LoggedIn provider get_session sessions-Holds toy-Inverts 5 fresh refl (codes "u")
      request [] _ (codes "u") refl

-- A session past its checkpoint, which Keycloak confirms.
authenticate-Confirmed_example :
    Confirmed provider 7 (codes "u") (session 6 (codes "r1") ∷ []) admin
unfolding program get_session
authenticate-Confirmed_example =
    authenticate-Confirmed provider 7 (some fresh) (codes "u") (session 6 (codes "r1") ∷ [])
      (session 900_000_000_007 (codes "r2") ∷ session 6 (codes "r1") ∷ []) admin refl

logout-authenticate_example :
    (logout provider (some (codes "u")) (session 6 (codes "r1") ∷ []) ≡ [])
    × (authenticate provider 3 none
          (some (codes "u"))
          (logout provider (some (codes "u")) (session 6 (codes "r1") ∷ []))
        ≡ (err no_such_session, []))
unfolding program delete_session
logout-authenticate_example =
    logout-authenticate provider get_session sessions-Holds 3 none (codes "u")
      (session 6 (codes "r1") ∷ []) [] refl

id-get_session :
    (id : Bytes) (db : List Session) (s : Session) → get_session id db ≡ some s → s.id ≡ id
unfolding get_session
id-get_session id [] s h = cc
id-get_session id (t ∷ db) s h = elim (Bool-cases (same t.id id)) [
  | inl here ↦
      let e : s ≡ t = ground (arith, here, h) in
      ap (λ (u : Session). u.id) e ∙ eq_of_same t.id id here
  | inr other ↦ id-get_session id db s (ground (arith, other, h))
]

sessions-Upserts : Upserts sessions get_session
unfolding get_session
sessions-Upserts = record {
  saves = λ s db next h. ground (arith, h, same_refl s.id);
  names = id-get_session;
}

-- The cookie is refused after the logout, and accepted again after the revalidation.
revalidate-logout_example :
    let after = logout provider (some (codes "u")) (session 6 (codes "r1") ∷ []) in
    (authenticate provider 9 none (some (codes "u")) after ≡ (err no_such_session, []))
    × (revalidate provider 7 (some fresh) (session 6 (codes "r1")) after
        ≡ (ok admin, session 900_000_000_007 (codes "r2") ∷ []))
    × (authenticate provider 9 none (some (codes "u")) (session 900_000_000_007 (codes "r2") ∷ [])
        ≡ (ok admin, session 900_000_000_007 (codes "r2") ∷ []))
unfolding program get_session delete_session
revalidate-logout_example =
    revalidate-logout provider get_session sessions-Holds sessions-Upserts 7 9 fresh (codes "u")
      (fresh ++ fresh ++ codes "r2") (codes "r1") (codes "r2") (session 6 (codes "r1") ∷ []) []
      (session 900_000_000_007 (codes "r2") ∷ []) (session 6 (codes "r1")) admin refl refl refl refl
      refl refl (omega arith)

abbrev token : Token
token = record { refresh_token = codes "r1"; id_token = some (codes "id") }

abbrev claims : Claims
claims = record {
  subject = codes "s";
  preferred_username = codes "sam";
  name = [];
  groups = codes "/admins" ∷ [];
}

abbrev provision : Identity → List Session → Option Bytes × List Session
provision i db = (some i.subject, db)

abbrev serve : Route → Bytes → Bytes → List Session → Outcome Denied Bytes × List Session
serve route actor role db = (ok role, db)

abbrev to_agents : Request
to_agents = record { wants_html = false; route = create_agent }

callback-rest_handler_example :
    let next = session 900_000_000_005 (codes "r1") ∷ [] in
    let answer =
      rest_handler (by_cookie provider 6 none (some (codes "u"))) provision serve to_agents next in
    (HasAdmin (codes "admins") (codes "/admins" ∷ []) × (answer ≡ (ok (codes "admin"), next)))
    ⊎ ((¬ HasAdmin (codes "admins") (codes "/admins" ∷ [])) × (answer ≡ (err forbidden, next)))
unfolding program
callback-rest_handler_example =
    callback-rest_handler provider get_session sessions-Holds toy-Inverts provision serve 5 6 fresh
      (codes "u") (codes "u") (codes "id") request to_agents []
      (session 900_000_000_005 (codes "r1") ∷ []) (session 900_000_000_005 (codes "r1") ∷ []) token
      claims admin (codes "s") refl refl refl refl refl refl (omega arith) refl refl

abbrev world : OidcWorld (List Session)
world = record {
  new_provider = λ url. some (record {
    refresh_exchange = λ config t. keycloak.refresh_exchange t;
    code_exchange = λ config c. keycloak.code_exchange c;
    verify = λ client raw. keycloak.verify raw;
  });
  scope_open_id = codes "openid";
  sessions = sessions;
  aead = toy;
  hash_session_id = λ s. s ++ s;
}

abbrev flags : Flags
flags = record {
  auth_stub = false;
  oidc_issuer = codes "i";
  oidc_client_id = codes "c";
  oidc_client_secret = codes "p";
  public_url = codes "u";
  admin_group = codes "admins";
  session_encryption_key = key;
}

abbrev config : OidcConfig
config = record {
  issuer = codes "i";
  client_id = codes "c";
  client_secret = codes "p";
  public_url = codes "u";
  admin_group = codes "admins";
  encryption_key = key;
}

configure-authenticate_example :
    let (cookie, state) = login (codes "q") in
    let r : CallbackRequest = record {
      state = state;
      code = codes "c";
      state_cookie = some cookie;
    } in
    (next : List Session) × (callback provider 5 (some fresh) (codes "u") r []
      ≡ (ok (codes "u"), next))
    × (authenticate provider 6 none (some (codes "u")) next ≡ (ok admin, next))
unfolding program configure new_oidc_handlers
configure-authenticate_example =
    configure-authenticate world (λ s. some s) flags config provider get_session sessions-Holds 5 6
      (codes "q") (codes "c") (codes "u") fresh token admin [] refl refl refl refl
      (λ s. (s ∷ [], refl)) (omega arith)
