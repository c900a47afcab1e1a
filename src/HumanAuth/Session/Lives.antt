-- ===== src/HumanAuth/Session/Lives.antt =====
-- What a session is worth: while it is current, when it has to be confirmed, and after the logout.
use mcp_webtools.Prelude.{
  ok, err, ℕ, ◌+◌, ◌≤◌, ◌<◌, ◌≡◌, ◌∙◌, subst, ◌⊎◌, inl, inr, Option, none, some, arith, ltb,
  Bool-cases, Option-cases, Bytes, Outcome-cases,
}
use mcp_webtools.Storage.{record_not_found}
use mcp_webtools.HumanAuth.Provider.{Identity}
use mcp_webtools.HumanAuth.Crypto.{encrypt_refresh_token, decrypt_refresh_token}
use mcp_webtools.HumanAuth.Session.{
  Session, Sessions, OidcProvider, session_refresh_interval, no_such_session, refresh, identity_of,
  store_refreshed, revalidate, authenticate, logout,
}

-- The statements on the sessions, as a map from IDs: `get` is what a table holds.
pub record Holds {Db : Type 0} (q : Sessions Db) (get : Bytes → Db → Option Session) : Type 0 where
  pub firsts :
      (id : Bytes) (db : Db)
      → q.first id db ≡ elim (get id db) [ none ↦ err record_not_found | some s ↦ ok s ]
  pub creates : (s : Session) (db next : Db) → q.create s db ≡ ok next → get s.id next ≡ some s
  pub deletes : (id : Bytes) (db next : Db) → q.delete id db ≡ ok next → get id next ≡ none

abbrev pub refreshed : Session → ℕ → Identity → Bytes → Session
refreshed s now i token = record {
  id = s.id;
  subject = i.subject;
  display_name = i.display_name;
  role = i.role;
  refresh_token = token;
  expires_at = now + session_refresh_interval;
}

module _ {Db : Type 0} (p : OidcProvider Db) where
  -- What confirms an identity at a time: a session that is current, or Keycloak just now.
  abbrev pub Confirmed : ℕ → Bytes → Db → Identity → Type 0
  Confirmed now raw db identity =
      (s : Session) × (p.sessions.first (p.hash_session_id raw) db ≡ ok s)
      × (((now < s.expires_at) × (identity ≡ identity_of s))
          ⊎ ((s.expires_at ≤ now)
              × ((old : Bytes) × (token : Bytes) × (decrypt_refresh_token p.aead p.encryption_key
                      s.refresh_token
                    ≡ ok old)
                  × (refresh p.keycloak old ≡ some (identity, token)))))

  stored :
      (now : ℕ) (fresh_nonce : Option Bytes) (s : Session) (i j : Identity) (token : Bytes)
      (db next : Db)
      → store_refreshed p now fresh_nonce s i token db ≡ (ok j, next)
      → i ≡ j
  unfolding store_refreshed
  stored now fresh_nonce s i j token db next h =
      elim (Outcome-cases (encrypt_refresh_token p.aead p.encryption_key fresh_nonce token)) [
        | inl (e, bad) ↦ absurd (ground (arith, bad, h))
        | inr (text, good) ↦ elim (Outcome-cases (p.sessions.save (refreshed s now i text) db)) [
          | inl (e, bad) ↦ absurd (ground (arith, good, bad, h))
          | inr (db1, done) ↦ ground (arith, good, done, h)
        ]
      ]

  -- Whoever is authenticated by a cookie has a session under its hash, and the identity is that of
  -- the session before its checkpoint, and from then on the one that Keycloak gives for the
  -- session's refresh token.
  pub authenticate-Confirmed :
      (now : ℕ) (fresh_nonce : Option Bytes) (raw : Bytes) (db next : Db) (identity : Identity)
      → authenticate p now fresh_nonce (some raw) db ≡ (ok identity, next)
      → Confirmed now raw db identity
  unfolding authenticate revalidate store_refreshed
  authenticate-Confirmed now fresh_nonce raw db next identity h =
      elim (Outcome-cases (p.sessions.first (p.hash_session_id raw) db)) [
        | inl (e, missing) ↦ absurd (ground (arith, missing))
        | inr (s, hit) ↦ (
          s,
          hit,
          elim (Bool-cases (ltb now s.expires_at)) [
            | inl current ↦ inl (ground (arith, current), ground (arith, hit, current))
            | inr stale ↦ inr (
              ground (arith, stale),
              elim (Outcome-cases (decrypt_refresh_token p.aead p.encryption_key s.refresh_token)) [
                | inl (e, broken) ↦ absurd (ground (arith, hit, stale, broken))
                | inr (old, plain) ↦ elim (Option-cases (refresh p.keycloak old)) [
                  | inl refused ↦ absurd (ground (arith, hit, stale, plain, refused))
                  | inr ((other, token), fresh) ↦ (
                    old,
                    token,
                    plain,
                    subst (λ i. refresh p.keycloak old ≡ some (i, token))
                        (stored now fresh_nonce s other identity token db next
                          (ground (arith, hit, stale, plain, fresh, h)))
                        fresh,
                  )
                ]
              ],
            )
          ],
        )
      ]

  -- Where the table of sessions keeps what is stored, after a logout whose DELETE succeeds the
  -- cookie authenticates nobody at any time, with the database unchanged.
  pub logout-authenticate :
      (get : Bytes → Db → Option Session) (holds : Holds p.sessions get) (now : ℕ)
      (fresh_nonce : Option Bytes) (raw : Bytes) (db next : Db)
      → p.sessions.delete (p.hash_session_id raw) db ≡ ok next
      → (logout p (some raw) db ≡ next)
        × (authenticate p now fresh_nonce (some raw) (logout p (some raw) db)
            ≡ (err no_such_session, next))
  unfolding logout authenticate
  logout-authenticate get holds now fresh_nonce raw db next done =
      let gone = holds.deletes (p.hash_session_id raw) db next done in
      let missing : p.sessions.first (p.hash_session_id raw) next ≡ err record_not_found =
        holds.firsts (p.hash_session_id raw) next ∙ ground (arith, gone) in
      (ground (arith, done), ground (arith, done, missing))
