-- ===== src/HumanAuth/Session.antt =====
-- The browser sessions of internal/humanauth/oidc_provider.go and oidc_handlers.go. Keycloak, the hash
-- of session IDs, the statements on the sessions' table and AES-GCM are parameters.
pub mod Roles
pub mod Lives
pub mod Login
pub mod Entered
pub mod Revived
pub mod Admins
use mcp_webtools.Prelude.{
  Outcome, ok, err, ℕ, ◌+◌, Bool, false, not, ◌||◌, Option, none, some, List, [], ◌∷◌, ltb,
  if◌then◌else◌, Bytes, codes, same, is_empty,
}
use mcp_webtools.Storage.{DbError}
use mcp_webtools.HumanAuth.Provider.{Identity}
use mcp_webtools.HumanAuth.Crypto.{Aead, encrypt_refresh_token, decrypt_refresh_token}

abbrev pub session_refresh_interval : ℕ
session_refresh_interval = 900_000_000_000

pub record Session : Type 0 where
  pub id : Bytes
  pub subject : Bytes
  pub display_name : Bytes
  pub role : Bytes
  pub refresh_token : Bytes
  pub expires_at : ℕ

pub record Sessions (Db : Type 0) : Type 0 where
  pub first : Bytes → Db → Outcome DbError Session
  pub create : Session → Db → Outcome DbError Db
  pub save : Session → Db → Outcome DbError Db
  pub delete : Bytes → Db → Outcome DbError Db

-- A token response, and the claims of a verified ID token.
pub record Token : Type 0 where
  pub refresh_token : Bytes
  pub id_token : Option Bytes

pub record Claims : Type 0 where
  pub subject : Bytes
  pub preferred_username : Bytes
  pub name : Bytes
  pub groups : List Bytes

-- `exchange` redeems a refresh token or an authorization code; `verify` checks an ID token and reads
-- its claims.
pub record Keycloak : Type 0 where
  pub refresh_exchange : Bytes → Option Token
  pub code_exchange : Bytes → Option Token
  pub verify : Bytes → Option Claims
  pub admin_group : Bytes

pub data AuthError : Type 0 where
  no_session_cookie no_such_session decrypt_failed refresh_failed encrypt_failed save_failed :
      AuthError

unfoldable pub role_for_groups : List Bytes → Bytes → Bytes
role_for_groups [] admin_group = codes "viewer"
role_for_groups (g ∷ groups) admin_group =
    let rest = role_for_groups groups admin_group in
    if same g (b'/' ∷ admin_group) || same g admin_group then codes "admin" else rest

unfoldable pub verify_and_extract : Keycloak → Token → Option Identity
unfolding role_for_groups
verify_and_extract k token = elim token.id_token [
  | none ↦ none
  | some raw ↦ elim (k.verify raw) [
    | none ↦ none
    | some claims ↦ some (record {
      subject = claims.subject;
      display_name = if is_empty claims.name then claims.preferred_username else claims.name;
      role = role_for_groups claims.groups k.admin_group;
    })
  ]
]

-- The identity, and the refresh token for the next time, which Keycloak may not have rotated.
unfoldable pub refresh : Keycloak → Bytes → Option (Identity × Bytes)
unfolding verify_and_extract
refresh k refresh_token = elim (k.refresh_exchange refresh_token) [
  | none ↦ none
  | some token ↦ elim (verify_and_extract k token) [
    | none ↦ none
    | some identity ↦
        some (identity, if is_empty token.refresh_token then refresh_token else token.refresh_token)
  ]
]

-- The provider, with its key; `hash_session_id` is SHA-256 in hexadecimal.
pub record OidcProvider (Db : Type 0) : Type 0 where
  pub sessions : Sessions Db
  pub keycloak : Keycloak
  pub aead : Aead
  pub encryption_key : Bytes
  pub hash_session_id : Bytes → Bytes

abbrev pub identity_of : Session → Identity
identity_of s = record { subject = s.subject; display_name = s.display_name; role = s.role }

-- A request to the callback: the `state` and `code` of the query, and the state cookie.
pub record CallbackRequest : Type 0 where
  pub state : Bytes
  pub code : Bytes
  pub state_cookie : Option Bytes

pub data CallbackError : Type 0 where
  invalid_state exchange_failed verification_failed internal_error : CallbackError

abbrev pub same_state : Bytes → Option Bytes → Bool
same_state state none = false
same_state state (some cookie) = same state cookie

module _ {Db : Type 0} (p : OidcProvider Db) where
  -- The error of a DELETE is not looked at.
  unfoldable pub drop_session : Session → Db → Db
  drop_session s db = elim (p.sessions.delete s.id db) [ err e ↦ db | ok next ↦ next ]

  unfoldable pub store_refreshed :
      ℕ → Option Bytes → Session → Identity → Bytes → Db → Outcome AuthError Identity × Db
  store_refreshed now fresh_nonce s identity token db =
      elim (encrypt_refresh_token p.aead p.encryption_key fresh_nonce token) [
        | err e ↦ (err encrypt_failed, db)
        | ok encrypted ↦
            elim (p.sessions.save
              (record {
                id = s.id;
                subject = identity.subject;
                display_name = identity.display_name;
                role = identity.role;
                refresh_token = encrypted;
                expires_at = now + session_refresh_interval;
              })
              db) [ err e ↦ (err save_failed, db) | ok next ↦ (ok identity, next) ]
      ]

  unfoldable pub revalidate : ℕ → Option Bytes → Session → Db → Outcome AuthError Identity × Db
  unfolding drop_session store_refreshed
  revalidate now fresh_nonce s db =
      elim (decrypt_refresh_token p.aead p.encryption_key s.refresh_token) [
        | err e ↦ (err decrypt_failed, drop_session s db)
        | ok refresh_token ↦ elim (refresh p.keycloak refresh_token) [
          | none ↦ (err refresh_failed, drop_session s db)
          | some (identity, token) ↦ store_refreshed now fresh_nonce s identity token db
        ]
      ]

  -- `cookie` is the session cookie's value, if the request has one.
  unfoldable pub authenticate :
      ℕ → Option Bytes → Option Bytes → Db → Outcome AuthError Identity × Db
  unfolding revalidate
  authenticate now fresh_nonce cookie db = elim cookie [
    | none ↦ (err no_session_cookie, db)
    | some raw ↦ elim (p.sessions.first (p.hash_session_id raw) db) [
      | err e ↦ (err no_such_session, db)
      | ok s ↦
          if ltb now s.expires_at then (ok (identity_of s), db) else revalidate now fresh_nonce s db
    ]
  ]

  -- The value of the session cookie that the callback sets; `session_id` is the new UUID.
  unfoldable pub create_session :
      ℕ → Option Bytes → Bytes → Identity → Bytes → Db → Outcome CallbackError Bytes × Db
  create_session now fresh_nonce session_id identity token db =
      elim (encrypt_refresh_token p.aead p.encryption_key fresh_nonce token) [
        | err e ↦ (err internal_error, db)
        | ok encrypted ↦
            elim (p.sessions.create
              (record {
                id = p.hash_session_id session_id;
                subject = identity.subject;
                display_name = identity.display_name;
                role = identity.role;
                refresh_token = encrypted;
                expires_at = now + session_refresh_interval;
              })
              db) [ err e ↦ (err internal_error, db) | ok next ↦ (ok session_id, next) ]
      ]

  unfoldable pub callback :
      ℕ → Option Bytes → Bytes → CallbackRequest → Db → Outcome CallbackError Bytes × Db
  unfolding create_session
  callback now fresh_nonce session_id r db =
      if not (same_state r.state r.state_cookie)
      then (err invalid_state, db)
      else elim (p.keycloak.code_exchange r.code) [
        | none ↦ (err exchange_failed, db)
        | some token ↦ elim (verify_and_extract p.keycloak token) [
          | none ↦ (err verification_failed, db)
          | some identity ↦
              create_session now fresh_nonce session_id identity token.refresh_token db
        ]
      ]

  -- The redirect and the emptied cookie are the same in every case.
  unfoldable pub logout : Option Bytes → Db → Db
  logout cookie db = elim cookie [
    | none ↦ db
    | some raw ↦ elim (p.sessions.delete (p.hash_session_id raw) db) [ err e ↦ db | ok next ↦ next ]
  ]

-- The login: the value of the state cookie, and the state that goes to Keycloak with the redirect.
unfoldable pub login : Bytes → Bytes × Bytes
login fresh_state = (fresh_state, fresh_state)
