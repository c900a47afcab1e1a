-- ===== src/HumanAuth/Session/Entered.antt =====
-- A login from its redirect to the requests that follow it.
use mcp_webtools.Prelude.{
  Outcome, ok, err, ℕ, ◌+◌, ◌<◌, ◌≡◌, ap, ◌∙◌, true, Option, none, some, arith, Bytes, same_refl,
}
use mcp_webtools.Storage.{DbError, record_not_found}
use mcp_webtools.HumanAuth.Provider.{Identity}
use mcp_webtools.HumanAuth.Crypto.{encrypt_refresh_token}
use mcp_webtools.HumanAuth.Session.{
  Session, Token, OidcProvider, CallbackRequest, session_refresh_interval, verify_and_extract,
  identity_of, same_state, authenticate, create_session, callback, login,
}
use mcp_webtools.HumanAuth.Session.Lives.{Holds}

-- The row that the callback makes.
abbrev pub session_of : Bytes → Identity → Bytes → ℕ → Session
session_of id i text now = record {
  id = id;
  subject = i.subject;
  display_name = i.display_name;
  role = i.role;
  refresh_token = text;
  expires_at = now + session_refresh_interval;
}

module _ {Db : Type 0} (p : OidcProvider Db) where
  enters :
      (now : ℕ) (fresh : Option Bytes) (session_id : Bytes) (r : CallbackRequest) (token : Token)
      (identity : Identity) (text : Bytes) (db next : Db)
      → same_state r.state r.state_cookie ≡ true
      → p.keycloak.code_exchange r.code ≡ some token
      → verify_and_extract p.keycloak token ≡ some identity
      → encrypt_refresh_token p.aead p.encryption_key fresh token.refresh_token ≡ ok text
      → p.sessions.create (session_of (p.hash_session_id session_id) identity text now) db ≡ ok next
      → callback p now fresh session_id r db ≡ (ok session_id, next)
  unfolding callback create_session
  enters now fresh session_id r token identity text db next state exchanged verified sealed
        created =
      ground (arith, state, exchanged, verified, sealed, created)

  pub authenticates :
      (later : ℕ) (raw : Bytes) (db : Db) (s : Session)
      → p.sessions.first (p.hash_session_id raw) db ≡ ok s
      → later < s.expires_at
      → authenticate p later none (some raw) db ≡ (ok (identity_of s), db)
  unfolding authenticate
  authenticates later raw db s h early = ground (arith, h, early)

  -- Where the table of sessions keeps what is stored and the exchange of the code, the check of
  -- the ID token, the encryption and the INSERT succeed, a browser that comes back from the
  -- redirect of its login with the same state gets the new session ID as its cookie, and the
  -- cookie authenticates the verified identity until the checkpoint.
  pub callback-authenticate :
      (get : Bytes → Db → Option Session) (holds : Holds p.sessions get) (now later : ℕ)
      (fresh_state code session_id text : Bytes) (fresh : Option Bytes) (token : Token)
      (identity : Identity) (db next : Db)
      → p.keycloak.code_exchange code ≡ some token
      → verify_and_extract p.keycloak token ≡ some identity
      → encrypt_refresh_token p.aead p.encryption_key fresh token.refresh_token ≡ ok text
      → p.sessions.create (session_of (p.hash_session_id session_id) identity text now) db ≡ ok next
      → later < now + session_refresh_interval
      → let (cookie, state) = login fresh_state in
        let r : CallbackRequest = record {
          state = state;
          code = code;
          state_cookie = some cookie;
        } in
        (callback p now fresh session_id r db ≡ (ok session_id, next))
        × (authenticate p later none (some session_id) next ≡ (ok identity, next))
  unfolding login
  callback-authenticate get holds now later fresh_state code session_id text fresh token identity db
        next exchanged verified sealed created early =
      let s = session_of (p.hash_session_id session_id) identity text now in
      let hit : p.sessions.first (p.hash_session_id session_id) next ≡ ok s =
        holds.firsts _ next
        ∙ ap
            (λ (o : Option Session). elim o as (λ x. Outcome DbError Session) [
              | none ↦ err record_not_found
              | some t ↦ ok t
            ])
            (holds.creates s db next created) in
      (
        enters now fresh session_id _ token identity text db next (same_refl fresh_state) exchanged
            verified sealed created,
        authenticates later session_id next s hit early,
      )
