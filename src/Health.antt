-- ===== src/Health.antt =====
-- internal/health/health.go: liveness and readiness.
use mcp_webtools.Prelude.{
  ℕ, ◌≡◌, refl, Bool, true, false, ◌&&◌, List, [], ◌∷◌, ◌++◌, ltb, if◌then◌else◌, length, Bytes,
  codes,
}

-- `ping` is the answer of the database, `true` where it gives no error.
pub record ReadyChecker : Type 0 where
  pub ping : Bool
  pub migrations_ready : Bool
  pub oidc_ready : Bool

pub record Readiness : Type 0 where
  pub code : ℕ
  pub failing : List Bytes

abbrev pub livez : ℕ
livez = 200

-- One dependency appended to the list of those that fail.
abbrev pub note_failing : Bool → Bytes → List Bytes → List Bytes
note_failing works name failing = if works then failing else failing ++ name ∷ []

unfoldable pub readyz : ReadyChecker → Readiness
readyz rc =
    let failing = note_failing rc.ping (codes "database") (
      note_failing rc.oidc_ready (codes "oidc_discovery")
        (note_failing rc.migrations_ready (codes "migrations") [])) in
    record { code = if ltb 0 (length failing) then 503 else 200; failing = failing }

flags :
    (p m o : Bool)
    → (readyz (record { ping = p; migrations_ready = m; oidc_ready = o })).code
      ≡ (if p && (m && o) then 200 else 503)
unfolding readyz
flags true true true = refl
flags true true false = refl
flags true false true = refl
flags true false false = refl
flags false true true = refl
flags false true false = refl
flags false false true = refl
flags false false false = refl

-- Readyz answers 200 where the database, the migrations and the OIDC discovery all work, and 503
-- otherwise.
pub readyz-code :
    (rc : ReadyChecker)
    → (readyz rc).code ≡ (if rc.ping && (rc.migrations_ready && rc.oidc_ready) then 200 else 503)
readyz-code rc = flags rc.ping rc.migrations_ready rc.oidc_ready
