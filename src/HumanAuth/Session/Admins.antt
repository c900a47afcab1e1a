-- ===== src/HumanAuth/Session/Admins.antt =====
-- From the groups of a login in internal/humanauth/oidc_handlers.go to the routes that manage agents,
-- through the middleware of internal/humanauth/middleware.go.
use mcp_webtools.Prelude.{
  Outcome, ok, err, ℕ, ◌+◌, ◌<◌, ◌≡◌, sym, ap, ◌∙◌, subst, ◌≢◌, ◌⊎◌, inl, inr, true, Option, none,
  some, arith, length, Bytes, codes, same,
}
use mcp_webtools.HumanAuth.{Request, Route, Denied, forbidden, needs_admin, rest_handler}
use mcp_webtools.HumanAuth.Gate.{rest_handler-forbids, rest_handler-admits}
use mcp_webtools.HumanAuth.Provider.{Identity}
use mcp_webtools.HumanAuth.Crypto.{Inverts}
use mcp_webtools.HumanAuth.Session.{
  Session, Token, Claims, OidcProvider, CallbackRequest, AuthError, session_refresh_interval,
  verify_and_extract, role_for_groups, authenticate, callback,
}
use mcp_webtools.HumanAuth.Session.Lives.{Holds}
use mcp_webtools.HumanAuth.Session.Login.{LoggedIn, callback-LoggedIn}
use mcp_webtools.HumanAuth.Session.Entered.{authenticates}
use mcp_webtools.HumanAuth.Session.Roles.{HasAdmin, role_for_groups-admin}

abbrev pub human_of : {Db : Type 0} → Outcome AuthError Identity × Db → Option Identity × Db
human_of (found, db) = (elim found [ err e ↦ none | ok identity ↦ some identity ], db)

-- The provider of the middleware, for a request with this cookie; which error it is, is not looked at.
abbrev pub by_cookie :
    {Db : Type 0}
    → OidcProvider Db
    → ℕ
    → Option Bytes
    → Option Bytes
    → Request
    → Db
    → Option Identity × Db
by_cookie p now fresh_nonce cookie r db = human_of (authenticate p now fresh_nonce cookie db)

viewer_not_admin : codes "viewer" ≢ codes "admin"
unfolding same
viewer_not_admin e = cc (ap (λ s. same s (codes "admin")) e)

role_of_claims :
    {Db : Type 0} (p : OidcProvider Db) (token : Token) (raw : Bytes) (claims : Claims)
    (identity : Identity)
    → token.id_token ≡ some raw
    → p.keycloak.verify raw ≡ some claims
    → verify_and_extract p.keycloak token ≡ some identity
    → identity.role ≡ role_for_groups claims.groups p.keycloak.admin_group
unfolding verify_and_extract
role_of_claims p token raw claims identity signed read verified =
    ground (arith, signed, read, verified)

module _ {Db Actor R : Type 0} (p : OidcProvider Db) (get : Bytes → Db → Option Session)
    (holds : Holds p.sessions get) (inverts : Inverts p.aead)
    (get_or_create : Identity → Db → Option Actor × Db)
    (handle : Route → Actor → Bytes → Db → Outcome Denied R × Db) where
  logged_in :
      (now later : ℕ) (r : CallbackRequest) (session_id cookie : Bytes) (next : Db) (q : Request)
      (l : LoggedIn p now r session_id cookie next)
      → later < now + session_refresh_interval
      → by_cookie p later none (some cookie) q next ≡ (some l.identity, next)
  logged_in now later r session_id cookie next q l early =
      let found =
        authenticates p later cookie next l.session l.stored
          (subst (λ t. later < t) (sym l.checkpoint) early) in
      ap human_of (found ∙ ap (λ i. (ok i, next)) l.same_identity)

  -- Where the table of sessions keeps what is stored, decryption inverts encryption and the nonce
  -- has the cipher's size, after a callback that sets a cookie a request with that cookie before
  -- the checkpoint, to a route that manages agents, reaches the handler as an administrator if the
  -- groups of the ID token that the code was exchanged for hold the admin group, by its name or
  -- its path, and is answered 403 otherwise; the user's actor is found or made.
  pub callback-rest_handler :
      (now later : ℕ) (fresh session_id cookie raw : Bytes) (r : CallbackRequest) (q : Request)
      (db next last : Db) (token : Token) (claims : Claims) (identity : Identity) (actor : Actor)
      → length fresh ≡ p.aead.nonce_size
      → callback p now (some fresh) session_id r db ≡ (ok cookie, next)
      → p.keycloak.code_exchange r.code ≡ some token
      → token.id_token ≡ some raw
      → p.keycloak.verify raw ≡ some claims
      → verify_and_extract p.keycloak token ≡ some identity
      → later < now + session_refresh_interval
      → get_or_create identity next ≡ (some actor, last)
      → needs_admin q.route ≡ true
      → let answer =
          rest_handler (by_cookie p later none (some cookie)) get_or_create handle q next in
        (HasAdmin p.keycloak.admin_group claims.groups
          × (answer ≡ handle q.route actor (codes "admin") last))
        ⊎ ((¬ HasAdmin p.keycloak.admin_group claims.groups) × (answer ≡ (err forbidden, last)))
  callback-rest_handler now later fresh session_id cookie raw r q db next last token claims identity
        actor fits entered exchanged signed read verified early known admin =
      let l =
        callback-LoggedIn p get holds inverts now fresh fits session_id r db next cookie entered in
      let same_token : l.token ≡ token = cc (l.exchanged, exchanged) in
      let same_identity : l.identity ≡ identity = cc (l.verified, verified, same_token) in
      let who : by_cookie p later none (some cookie) q next ≡ (some identity, next) =
        logged_in now later r session_id cookie next q l early
        ∙ ap (λ i. (some i, next)) same_identity in
      let role = role_of_claims p token raw claims identity signed read verified in
      elim (role_for_groups-admin claims.groups p.keycloak.admin_group) [
        | inl (has, is_admin) ↦ inl (
          has,
          rest_handler-admits (by_cookie p later none (some cookie)) get_or_create handle q next
              identity next actor last who known (role ∙ is_admin),
        )
        | inr (lacks, is_viewer) ↦ inr (
          lacks,
          rest_handler-forbids (by_cookie p later none (some cookie)) get_or_create handle q next
              identity next actor last who known admin
              (λ e. viewer_not_admin (sym (role ∙ is_viewer) ∙ e)),
        )
      ]
