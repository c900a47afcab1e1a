-- ===== src/HumanAuth/Session/Revived.antt =====
-- A session that is logged out while its revalidation waits for Keycloak.
use mcp_webtools.Prelude.{
  ok, err, ℕ, ◌+◌, ◌<◌, ◌≡◌, subst, inl, inr, Option, none, some, arith, Option-cases, Bytes,
}
use mcp_webtools.HumanAuth.Provider.{Identity}
use mcp_webtools.HumanAuth.Crypto.{encrypt_refresh_token, decrypt_refresh_token}
use mcp_webtools.HumanAuth.Session.{
  Session, Sessions, OidcProvider, session_refresh_interval, no_such_session, refresh, identity_of,
  store_refreshed, revalidate, authenticate, logout,
}
use mcp_webtools.HumanAuth.Session.Lives.{Holds, refreshed, logout-authenticate}

-- GORM's `Save` stores the row under its ID, whether or not one was there; a row is found under its ID.
pub record Upserts {Db : Type 0} (q : Sessions Db) (get : Bytes → Db → Option Session)
    : Type 0 where
  pub saves : (s : Session) (db next : Db) → q.save s db ≡ ok next → get s.id next ≡ some s
  pub names : (id : Bytes) (db : Db) (s : Session) → get id db ≡ some s → s.id ≡ id

module _ {Db : Type 0} (p : OidcProvider Db) (get : Bytes → Db → Option Session)
    (holds : Holds p.sessions get) (upserts : Upserts p.sessions get) where
  session_of_first :
      (id : Bytes) (db : Db) (s : Session) → p.sessions.first id db ≡ ok s → get id db ≡ some s
  session_of_first id db s h = elim (Option-cases (get id db)) [
    | inl gone ↦ absurd (ground (arith, holds.firsts id db, gone, h))
    | inr (t, here) ↦ ground (arith, holds.firsts id db, here, h)
  ]

  first_of_session :
      (id : Bytes) (db : Db) (s : Session) → get id db ≡ some s → p.sessions.first id db ≡ ok s
  first_of_session id db s h = ground (arith, holds.firsts id db, h)

  current :
      (later : ℕ) (raw : Bytes) (db : Db) (s : Session)
      → p.sessions.first (p.hash_session_id raw) db ≡ ok s
      → later < s.expires_at
      → authenticate p later none (some raw) db ≡ (ok (identity_of s), db)
  unfolding authenticate
  current later raw db s h early = ground (arith, h, early)

  -- Where Save stores the row under its ID whether or not one was there, a session that is logged
  -- out while its revalidation waits for Keycloak is refused after the logout, and stored again by
  -- the revalidation, so that the cookie authenticates its owner again until the next checkpoint,
  -- given that the statements and the exchange succeed.
  pub revalidate-logout :
      (now later : ℕ) (fresh raw text old token : Bytes) (db gone next : Db) (s : Session)
      (identity : Identity)
      → p.sessions.first (p.hash_session_id raw) db ≡ ok s
      → decrypt_refresh_token p.aead p.encryption_key s.refresh_token ≡ ok old
      → refresh p.keycloak old ≡ some (identity, token)
      → encrypt_refresh_token p.aead p.encryption_key (some fresh) token ≡ ok text
      → p.sessions.delete (p.hash_session_id raw) db ≡ ok gone
      → p.sessions.save (refreshed s now identity text) gone ≡ ok next
      → later < now + session_refresh_interval
      → (authenticate p later none (some raw) (logout p (some raw) db)
          ≡ (err no_such_session, gone))
        × (revalidate p now (some fresh) s (logout p (some raw) db) ≡ (ok identity, next))
        × (authenticate p later none (some raw) next ≡ (ok identity, next))
  unfolding revalidate store_refreshed
  revalidate-logout now later fresh raw text old token db gone next s identity hit plain
        fresh_claims sealed dropped saved early =
      let (left, refused) = logout-authenticate p get holds later none raw db gone dropped in
      let id : s.id ≡ p.hash_session_id raw = upserts.names _ db s (session_of_first _ db s hit) in
      let again : p.sessions.first (p.hash_session_id raw) next
          ≡ ok (refreshed s now identity text) =
        first_of_session _ next _ (
          subst (λ k. get k next ≡ some (refreshed s now identity text)) id
            (upserts.saves (refreshed s now identity text) gone next saved)) in
      (
        refused,
        rw left (ground (arith, plain, fresh_claims, sealed, saved)),
        current later raw next _ again early,
      )
