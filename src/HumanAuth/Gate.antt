-- ===== src/HumanAuth/Gate.antt =====
-- Who reaches the handlers of the REST API.
use mcp_webtools.Prelude.{
  Outcome, err, ◌≡◌, ◌≢◌, inl, inr, true, false, Option, some, arith, Bool-cases, Bytes, codes,
  same, eq_of_same, same_refl,
}
use mcp_webtools.HumanAuth.Provider.{Identity}
use mcp_webtools.HumanAuth.{
  Request, Route, Denied, forbidden, needs_admin, require_admin, require_human_auth, rest_handler,
}

module _ {Db Actor R : Type 0} (authenticate : Request → Db → Option Identity × Db)
    (get_or_create : Identity → Db → Option Actor × Db)
    (handle : Route → Actor → Bytes → Db → Outcome Denied R × Db) (r : Request) (db : Db) where
  -- A request to a route that manages agents, by an authenticated human whose role is not "admin",
  -- is answered 403, and the database is as the authentication left it.
  pub rest_handler-forbids :
      (identity : Identity) (db1 : Db) (actor : Actor) (db2 : Db)
      → authenticate r db ≡ (some identity, db1)
      → get_or_create identity db1 ≡ (some actor, db2)
      → needs_admin r.route ≡ true
      → identity.role ≢ codes "admin"
      → rest_handler authenticate get_or_create handle r db ≡ (err forbidden, db2)
  unfolding rest_handler require_human_auth require_admin
  rest_handler-forbids identity db1 actor db2 who known admin other =
      let not_admin : same identity.role (codes "admin") ≡ false =
        elim (Bool-cases (same identity.role (codes "admin"))) [
          | inl same_role ↦ absurd (other (eq_of_same identity.role (codes "admin") same_role))
          | inr differs ↦ differs
        ] in
      ground (arith, who, known, admin, not_admin)

  -- A request by an authenticated human whose role is "admin" reaches the handler of its route.
  pub rest_handler-admits :
      (identity : Identity) (db1 : Db) (actor : Actor) (db2 : Db)
      → authenticate r db ≡ (some identity, db1)
      → get_or_create identity db1 ≡ (some actor, db2)
      → identity.role ≡ codes "admin"
      → rest_handler authenticate get_or_create handle r db
        ≡ handle r.route actor (codes "admin") db2
  unfolding rest_handler require_human_auth require_admin
  rest_handler-admits identity db1 actor db2 who known admin =
      elim (Bool-cases (needs_admin r.route)) [
        | inl guarded ↦ ground (arith, who, known, guarded, admin, same_refl (codes "admin"))
        | inr open_to_all ↦ ground (arith, who, known, open_to_all, admin)
      ]
