-- ===== src/Auth/Bearer.antt =====
-- Which requests reach the handler behind the bearer check.
use mcp_webtools.Prelude.{
  Outcome, ok, err, ◌≡◌, refl, sym, ◌∙◌, inl, inr, true, false, none, some, [], ◌∷◌, ◌++◌, arith,
  ==_iff, Bool-cases, Option-cases, Bytes, is_empty, Outcome-cases,
}
use mcp_webtools.Auth.{cut_prefix, scheme, invalid_token, missing_token, require_bearer}

pub cut_prefix-append : (prefix s : Bytes) → cut_prefix prefix (prefix ++ s) ≡ some s
unfolding cut_prefix
cut_prefix-append [] s = refl
cut_prefix-append (c ∷ prefix) s = ground (arith, cut_prefix-append prefix s, (==_iff c c).1 refl)

module _ {Db E Actor R : Type 0} (authenticate : Bytes → Db → Outcome E Actor × Db)
    (next : Actor → Db → R × Db) where
  pub admitted :
      (header token : Bytes) (db : Db) (actor : Actor)
      → cut_prefix scheme header ≡ some token
      → is_empty token ≡ false
      → (authenticate token db).0 ≡ ok actor
      → require_bearer authenticate next header db
        ≡ (ok (next actor (authenticate token db).1).0, (next actor (authenticate token db).1).1)
  unfolding require_bearer
  admitted header token db actor cut named good = ground (arith, cut, named, good)

  -- The handler behind the bearer check answers only where the header is "Bearer " and a token
  -- that is not empty and the token authenticates an actor, and it then runs for that actor, after
  -- the authentication.
  pub require_bearer-admits :
      (header : Bytes) (db after : Db) (answer : R)
      → require_bearer authenticate next header db ≡ (ok answer, after)
      → (token : Bytes) × (actor : Actor) × (cut_prefix scheme header ≡ some token)
        × (is_empty token ≡ false)
        × ((authenticate token db).0 ≡ ok actor)
        × (next actor (authenticate token db).1 ≡ (answer, after))
  unfolding require_bearer
  require_bearer-admits header db after answer h = elim (Option-cases (cut_prefix scheme header)) [
    | inl none_there ↦ absurd (ground (arith, none_there))
    | inr (token, cut) ↦ elim (Bool-cases (is_empty token)) [
      | inl blank ↦ absurd (ground (arith, cut, blank))
      | inr named ↦ elim (Outcome-cases (authenticate token db).0) [
        | inl (e, bad) ↦ absurd (ground (arith, cut, named, bad))
        | inr (actor, good) ↦
            let both : (
              ok (next actor (authenticate token db).1).0,
              (next actor (authenticate token db).1).1,
            )
                ≡ (ok answer, after) =
              sym (admitted header token db actor cut named good) ∙ h in
            (token, actor, cut, named, good, grind (arith, both))
      ]
    ]
  ]

  -- No token, or one that does not authenticate: the handler does not run.
  pub require_bearer-refuses :
      (header token : Bytes) (db : Db) (e : E)
      → cut_prefix scheme header ≡ some token
      → is_empty token ≡ false
      → (authenticate token db).0 ≡ err e
      → require_bearer authenticate next header db ≡ (err invalid_token, (authenticate token db).1)
  unfolding require_bearer
  require_bearer-refuses header token db e cut named bad = ground (arith, cut, named, bad)

  without_token :
      (header : Bytes) (db : Db)
      → cut_prefix scheme header ≡ none
      → require_bearer authenticate next header db ≡ (err missing_token, db)
  unfolding require_bearer
  without_token header db h = ground (arith, h)

  with_empty_token :
      (header token : Bytes) (db : Db)
      → cut_prefix scheme header ≡ some token
      → is_empty token ≡ true
      → require_bearer authenticate next header db ≡ (err missing_token, db)
  unfolding require_bearer
  with_empty_token header token db h blank = ground (arith, h, blank)

  -- What the authentication and the handler keep is kept, whatever the request is.
  pub require_bearer_keeps :
      (P : Db → Type 0) (header : Bytes) (db : Db)
      → ((token : Bytes) (db1 : Db) → P db1 → P (authenticate token db1).1)
      → ((actor : Actor) (db1 : Db) → P db1 → P (next actor db1).1)
      → P db
      → P (require_bearer authenticate next header db).1
  require_bearer_keeps P header db authenticated handled h =
      elim (Option-cases (cut_prefix scheme header)) [
        | inl none_there ↦ rw (without_token header db none_there) h
        | inr (token, cut) ↦ elim (Bool-cases (is_empty token)) [
          | inl blank ↦ rw (with_empty_token header token db cut blank) h
          | inr named ↦ elim (Outcome-cases (authenticate token db).0) [
            | inl (e, bad) ↦
                rw (require_bearer-refuses header token db e cut named bad)
                  (authenticated token db h)
            | inr (actor, good) ↦
                rw (admitted header token db actor cut named good)
                  (handled actor _ (authenticated token db h))
          ]
        ]
      ]
