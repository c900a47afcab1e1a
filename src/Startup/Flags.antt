-- ===== src/Startup/Flags.antt =====
-- The flags of the root command in `newRootCommand`. The parsing of the command line and of the
-- environment is urfave/cli's: what it resolves is a parameter, a value for each name.
use mcp_webtools.Prelude.{ℕ, ◌*◌, Bool, false, List, [], ◌∷◌, ◌++◌, ℤ, pos, Bytes, codes}
use mcp_webtools.Startup.Config.{Flags}

pub data Value : Type 0 where
  text : Bytes → Value
  duration : ℤ → Value
  number : ℤ → Value
  switch : Bool → Value

pub record Flag : Type 0 where
  pub name : Bytes
  pub default : Value
  pub env : Bytes

abbrev flag : Bytes → Value → Bytes → Flag
flag name default env = record { name = name; default = default; env = env }

abbrev pub seconds : ℕ → Value
seconds n = duration (pos (n * 1_000_000_000))

-- The declared flags, with their defaults and environment variables, in the order of the source.
abbrev pub server_flags : List Flag
server_flags =
    flag (codes "listen-addr") (text (codes ":8080")) (codes "LISTEN_ADDR")
    ∷ flag (codes "db-dsn") (text (codes "data/webtools.db")) (codes "DB_DSN")
    ∷ flag (codes "searxng-url") (text (codes "http://localhost:8080")) (codes "SEARXNG_URL")
    ∷ flag (codes "fetch-timeout") (seconds 15) (codes "FETCH_TIMEOUT")
    ∷ flag (codes "fetch-max-bytes") (number (pos 65_536)) (codes "FETCH_MAX_BYTES")
    ∷ flag (codes "fetch-cache-max-bytes") (number (pos 33_554_432)) (codes "FETCH_CACHE_MAX_BYTES")
    ∷ flag (codes "cache-ttl") (seconds 300) (codes "CACHE_TTL")
    ∷ flag (codes "search-timeout") (seconds 10) (codes "SEARCH_TIMEOUT")
    ∷ flag (codes "history-preview-bytes") (number (pos 65_536)) (codes "HISTORY_PREVIEW_BYTES")
    ∷ flag (codes "history-retention") (seconds 0) (codes "HISTORY_RETENTION")
    ∷ []

abbrev pub auth_flags : List Flag
auth_flags =
    flag (codes "auth-stub") (switch false) (codes "AUTH_STUB")
    ∷ flag (codes "oidc-issuer") (text []) (codes "OIDC_ISSUER")
    ∷ flag (codes "oidc-client-id") (text []) (codes "OIDC_CLIENT_ID")
    ∷ flag (codes "oidc-client-secret") (text []) (codes "OIDC_CLIENT_SECRET")
    ∷ flag (codes "public-url") (text []) (codes "PUBLIC_URL")
    ∷ flag (codes "admin-group") (text (codes "admins")) (codes "ADMIN_GROUP")
    ∷ flag (codes "session-encryption-key") (text []) (codes "SESSION_ENCRYPTION_KEY")
    ∷ []

abbrev pub flags : List Flag
flags = server_flags ++ auth_flags

-- What the library resolves for a name.
abbrev pub Settings : Type 0
Settings = Bytes → Value

-- `cmd.String`, `cmd.Duration`, `cmd.Int`, `cmd.Bool`: the zero value where the flag is of another type.
abbrev pub text_of : Value → Bytes
text_of (text s) = s
text_of _ = []

abbrev pub duration_of : Value → ℤ
duration_of (duration d) = d
duration_of _ = pos 0

abbrev pub number_of : Value → ℤ
number_of (number n) = n
number_of _ = pos 0

abbrev pub switch_of : Value → Bool
switch_of (switch b) = b
switch_of _ = false

-- What `buildAppHandler` reads for the human authentication.
unfoldable pub auth_settings : Settings → Flags
auth_settings s = record {
  auth_stub = switch_of (s (codes "auth-stub"));
  oidc_issuer = text_of (s (codes "oidc-issuer"));
  oidc_client_id = text_of (s (codes "oidc-client-id"));
  oidc_client_secret = text_of (s (codes "oidc-client-secret"));
  public_url = text_of (s (codes "public-url"));
  admin_group = text_of (s (codes "admin-group"));
  session_encryption_key = text_of (s (codes "session-encryption-key"));
}
