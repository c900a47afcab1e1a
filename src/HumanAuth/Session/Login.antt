-- ===== src/HumanAuth/Session/Login.antt =====
-- What the callback of a login leaves in the database.
use mcp_webtools.Prelude.{
  Outcome, ok, err, ℕ, ◌+◌, ◌≡◌, refl, sym, ap, ◌∙◌, subst, inl, inr, true, Option, none, some,
  arith, Bool-cases, Option-cases, length, Bytes, eq_of_same, Outcome-cases,
}
use mcp_webtools.Storage.{DbError, record_not_found}
use mcp_webtools.HumanAuth.Provider.{Identity}
use mcp_webtools.HumanAuth.Crypto.{
  Inverts, encrypt_refresh_token, decrypt_refresh_token, decrypt-encrypt,
}
use mcp_webtools.HumanAuth.Session.{
  Session, Token, OidcProvider, CallbackRequest, session_refresh_interval, verify_and_extract,
  identity_of, create_session, same_state, callback,
}
use mcp_webtools.HumanAuth.Session.Lives.{Holds}

module _ {Db : Type 0} (p : OidcProvider Db) where
  -- What a login leaves: a session under the hash of the cookie, with the identity of the ID token, and
  -- the refresh token, which can be read back.
  pub record LoggedIn (now : ℕ) (r : CallbackRequest) (session_id cookie : Bytes) (next : Db)
      : Type 0 where
    pub token : Token
    pub session : Session
    pub identity : Identity
    pub same_state : r.state_cookie ≡ some r.state
    pub exchanged : p.keycloak.code_exchange r.code ≡ some token
    pub verified : verify_and_extract p.keycloak token ≡ some identity
    pub same_cookie : cookie ≡ session_id
    pub stored : p.sessions.first (p.hash_session_id cookie) next ≡ ok session
    pub same_identity : identity_of session ≡ identity
    pub checkpoint : session.expires_at ≡ now + session_refresh_interval
    pub readable :
        decrypt_refresh_token p.aead p.encryption_key session.refresh_token ≡ ok token.refresh_token

  module _ (get : Bytes → Db → Option Session) (holds : Holds p.sessions get)
      (inverts : Inverts p.aead) (now : ℕ) (fresh : Bytes) (fits : length fresh ≡ p.aead.nonce_size)
      (session_id : Bytes) where
    abbrev made : Identity → Bytes → Session
    made i text = record {
      id = p.hash_session_id session_id;
      subject = i.subject;
      display_name = i.display_name;
      role = i.role;
      refresh_token = text;
      expires_at = now + session_refresh_interval;
    }

    key_of_ok :
        (plain text : Bytes)
        → encrypt_refresh_token p.aead p.encryption_key (some fresh) plain ≡ ok text
        → length p.encryption_key ≡ 32
    unfolding encrypt_refresh_token
    key_of_ok plain text h = ground (arith, h)

    readable_of_ok :
        (plain text : Bytes)
        → encrypt_refresh_token p.aead p.encryption_key (some fresh) plain ≡ ok text
        → decrypt_refresh_token p.aead p.encryption_key text ≡ ok plain
    readable_of_ok plain text h =
        let (other, same_text, back) =
          decrypt-encrypt p.aead p.encryption_key fresh plain inverts (key_of_ok plain text h)
            fits in
        let e : other ≡ text = ground (arith, same_text, h) in
        subst (λ t. decrypt_refresh_token p.aead p.encryption_key t ≡ ok plain) e back

    created :
        (i : Identity) (plain : Bytes) (db next : Db) (cookie : Bytes)
        → create_session p now (some fresh) session_id i plain db ≡ (ok cookie, next)
        → (text : Bytes) × (encrypt_refresh_token p.aead p.encryption_key (some fresh) plain
            ≡ ok text)
          × (p.sessions.create (made i text) db ≡ ok next)
          × (cookie ≡ session_id)
    unfolding create_session
    created i plain db next cookie h =
        elim (Outcome-cases (encrypt_refresh_token p.aead p.encryption_key (some fresh) plain)) [
          | inl (e, bad) ↦ absurd (ground (arith, bad, h))
          | inr (text, good) ↦ elim (Outcome-cases (p.sessions.create (made i text) db)) [
            | inl (e, bad) ↦ absurd (ground (arith, good, bad, h))
            | inr (db1, done) ↦
                (text, good, ground (arith, good, done, h), ground (arith, good, done, h))
          ]
        ]

    state_of_ok :
        (state : Bytes) (cookie : Option Bytes)
        → same_state state cookie ≡ true
        → cookie ≡ some state
    state_of_ok state none h = cc
    state_of_ok state (some c) h = ap some (sym (eq_of_same state c h))

    -- Where the table of sessions keeps what is stored, decryption inverts encryption and the
    -- nonce has the cipher's size, a callback that sets a cookie comes with the state of the state
    -- cookie, and stores under the hash of the new session ID a session with the identity of the
    -- verified ID token, the next checkpoint, and the refresh token of the code exchange, which
    -- can be read back.
    pub callback-LoggedIn :
        (r : CallbackRequest) (db next : Db) (cookie : Bytes)
        → callback p now (some fresh) session_id r db ≡ (ok cookie, next)
        → LoggedIn now r session_id cookie next
    unfolding callback
    callback-LoggedIn r db next cookie h = elim (Bool-cases (same_state r.state r.state_cookie)) [
      | inr other ↦ absurd (ground (arith, other, h))
      | inl good_state ↦ elim (Option-cases (p.keycloak.code_exchange r.code)) [
        | inl refused ↦ absurd (ground (arith, good_state, refused, h))
        | inr (token, exchanged) ↦ elim (Option-cases (verify_and_extract p.keycloak token)) [
          | inl refused ↦ absurd (ground (arith, good_state, exchanged, refused, h))
          | inr (identity, verified) ↦
              let made_it : create_session p now (some fresh) session_id identity
                    token.refresh_token db
                  ≡ (ok cookie, next) =
                ground (arith, good_state, exchanged, verified, h) in
              let (text, encrypted, stored, same_cookie) =
                created identity token.refresh_token db next cookie made_it in
              record {
                token = token;
                session = made identity text;
                identity = identity;
                same_state = state_of_ok r.state r.state_cookie good_state;
                exchanged = exchanged;
                verified = verified;
                same_cookie = same_cookie;
                stored = rw same_cookie (
                    holds.firsts (p.hash_session_id session_id) next
                    ∙ ap
                        (λ (o : Option Session). elim o as (λ x. Outcome DbError Session) [
                          | none ↦ err record_not_found
                          | some s ↦ ok s
                        ])
                        (holds.creates (made identity text) db next stored));
                same_identity = refl;
                checkpoint = refl;
                readable = readable_of_ok token.refresh_token text encrypted;
              }
        ]
      ]
    ]
