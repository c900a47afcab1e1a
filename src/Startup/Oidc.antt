-- ===== src/Startup/Oidc.antt =====
-- `NewOIDCHandlers` of internal/humanauth/oidc_handlers.go: the provider that the configuration of the
-- process gives. The OIDC and OAuth2 libraries are parameters.
use mcp_webtools.Prelude.{
  ok, ℕ, ◌+◌, ◌<◌, ◌≡◌, sym, subst, true, false, Bool, inl, inr, Option-cases, Option, none, some,
  List, [], ◌∷◌, ◌++◌, arith, Bytes, codes,
}
use mcp_webtools.HumanAuth.Provider.{Identity}
use mcp_webtools.HumanAuth.Crypto.{Aead}
use mcp_webtools.HumanAuth.Session.{
  Session, Sessions, Token, Claims, OidcProvider, CallbackRequest, session_refresh_interval,
  verify_and_extract, authenticate, callback, login,
}
use mcp_webtools.HumanAuth.Session.Lives.{Holds}
use mcp_webtools.HumanAuth.Session.Entered.{session_of, callback-authenticate}
use mcp_webtools.Startup.Config.{Flags, OidcConfig, oidc, configure, configure-key}

pub record Oauth2Config : Type 0 where
  pub client_id : Bytes
  pub client_secret : Bytes
  pub redirect_url : Bytes
  pub scopes : List Bytes

-- What the discovery of an issuer yields: its token endpoint, for a client's settings, and its
-- verifier of ID tokens, for a client's ID.
pub record Issuer : Type 0 where
  pub refresh_exchange : Oauth2Config → Bytes → Option Token
  pub code_exchange : Oauth2Config → Bytes → Option Token
  pub verify : Bytes → Bytes → Option Claims

-- The libraries, the statements on the sessions' table, and the hash of session IDs.
pub record OidcWorld (Db : Type 0) : Type 0 where
  pub new_provider : Bytes → Option Issuer
  pub scope_open_id : Bytes
  pub sessions : Sessions Db
  pub aead : Aead
  pub hash_session_id : Bytes → Bytes

module _ {Db : Type 0} (w : OidcWorld Db) where
  unfoldable pub oauth2_config : OidcConfig → Oauth2Config
  oauth2_config cfg = record {
    client_id = cfg.client_id;
    client_secret = cfg.client_secret;
    redirect_url = cfg.public_url ++ codes "/auth/callback";
    scopes = w.scope_open_id ∷ codes "profile" ∷ codes "offline_access" ∷ [];
  }

  unfoldable pub new_oidc_handlers : OidcConfig → Option (OidcProvider Db)
  unfolding oauth2_config
  new_oidc_handlers cfg = elim (w.new_provider cfg.issuer) [
    | none ↦ none
    | some discovered ↦ some (record {
      sessions = w.sessions;
      keycloak = record {
        refresh_exchange = discovered.refresh_exchange (oauth2_config cfg);
        code_exchange = discovered.code_exchange (oauth2_config cfg);
        verify = discovered.verify cfg.client_id;
        admin_group = cfg.admin_group;
      };
      aead = w.aead;
      encryption_key = cfg.encryption_key;
      hash_session_id = w.hash_session_id;
    })
  ]

  -- Whether the configuration's issuer is discovered, which `configure` asks.
  abbrev pub discovers : OidcConfig → Bool
  discovers cfg = elim (new_oidc_handlers cfg) [ none ↦ false | some p ↦ true ]

  built :
      (cfg : OidcConfig) (p : OidcProvider Db)
      → new_oidc_handlers cfg ≡ some p
      → (p.sessions ≡ w.sessions) × (p.encryption_key ≡ cfg.encryption_key)
  unfolding new_oidc_handlers
  built cfg p h = elim (Option-cases (w.new_provider cfg.issuer)) [
    | inl missing ↦ absurd (ground (arith, missing, h))
    | inr (issuer, found) ↦ (ground (arith, found, h), ground (arith, found, h))
  ]

  -- In a process whose flags are accepted and ask for OIDC, where the issuer is discovered, the
  -- table of sessions keeps what is stored and takes a new row, the source of randomness works and
  -- the code and its ID token are good, a browser that comes back from the redirect of its login
  -- with the same state gets the new session ID as its cookie, and the cookie authenticates the
  -- verified identity until the checkpoint.
  pub configure-authenticate :
      (decode : Bytes → Option Bytes) (flags : Flags) (cfg : OidcConfig) (p : OidcProvider Db)
      (get : Bytes → Db → Option Session) (holds : Holds w.sessions get) (now later : ℕ)
      (fresh_state code session_id fresh : Bytes) (token : Token) (identity : Identity) (db : Db)
      → configure decode discovers flags ≡ ok (oidc cfg)
      → new_oidc_handlers cfg ≡ some p
      → p.keycloak.code_exchange code ≡ some token
      → verify_and_extract p.keycloak token ≡ some identity
      → ((s : Session) → (next : Db) × (w.sessions.create s db ≡ ok next))
      → later < now + session_refresh_interval
      → let (cookie, state) = login fresh_state in
        let r : CallbackRequest = record {
          state = state;
          code = code;
          state_cookie = some cookie;
        } in
        (next : Db) × (callback p now (some fresh) session_id r db ≡ (ok session_id, next))
        × (authenticate p later none (some session_id) next ≡ (ok identity, next))
  configure-authenticate decode flags cfg p get holds now later fresh_state code session_id fresh
        token identity db accepted made exchanged verified creates early =
      let (same_sessions, same_key) = built cfg p made in
      let ((text, sealed), _) =
        configure-key decode discovers flags cfg p.aead fresh token.refresh_token [] accepted in
      let (next, created) = creates (session_of (p.hash_session_id session_id) identity text now) in
      let (entered, again) =
        callback-authenticate p get (subst (λ t. Holds t get) (sym same_sessions) holds) now later
          fresh_state code session_id text (some fresh) token identity db next exchanged verified
          (rw same_key sealed) (rw same_sessions created) early in
      (next, entered, again)
