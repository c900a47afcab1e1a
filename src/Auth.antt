-- ===== src/Auth.antt =====
-- internal/auth/auth.go: the bearer token that every request to the MCP surface carries. The check of
-- the token against the database is a parameter here; storage's implementation is its instance.
pub mod Bearer
use mcp_webtools.Prelude.{
  Outcome, ok, err, Option, none, some, [], ◌∷◌, ◌==◌, if◌then◌else◌, Bytes, codes, is_empty,
}

-- strings.CutPrefix
unfoldable pub cut_prefix : Bytes → Bytes → Option Bytes
cut_prefix [] s = some s
cut_prefix (c ∷ prefix) [] = none
cut_prefix (c ∷ prefix) (d ∷ s) = let rest = cut_prefix prefix s in if c == d then rest else none

abbrev pub scheme : Bytes
scheme = codes "Bearer "

pub data Challenge : Type 0 where
  missing_token invalid_token : Challenge

-- `authenticate` is `Authenticate` on the request's database, and `next` the wrapped handler, which
-- runs with the actor in its context. Both errors are a 401 with a challenge.
unfoldable pub require_bearer :
    {Db E Actor R : Type 0}
    → (Bytes → Db → Outcome E Actor × Db)
    → (Actor → Db → R × Db)
    → Bytes
    → Db
    → Outcome Challenge R × Db
unfolding cut_prefix
require_bearer authenticate next header db = elim (cut_prefix scheme header) [
  | none ↦ (err missing_token, db)
  | some token ↦
      if is_empty token
      then (err missing_token, db)
      else let (found, db1) = authenticate token db in
        elim found [
          | err e ↦ (err invalid_token, db1)
          | ok actor ↦ let (answer, db2) = next actor db1 in (ok answer, db2)
        ]
]
