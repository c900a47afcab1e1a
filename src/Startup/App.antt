-- ===== src/Startup/App.antt =====
-- `buildAppHandler` and `newServer`: what one process serves. The base64 decoder, the discovery of the
-- OIDC issuer, the embedded files and the pool of the database are parameters; a request brings the
-- route that chi matches.
pub mod Process
pub mod Secured
pub mod Unread
use mcp_webtools.Prelude.{
  Outcome, ok, err, ℕ, Bool, not, Option, none, some, if◌then◌else◌, ℤ, pos, Bytes, codes,
}
use mcp_webtools.Fetch.Fetcher
use mcp_webtools.Fetch.Fetcher.{Fetcher}
use mcp_webtools.Search
use mcp_webtools.Search.{Searcher}
use mcp_webtools.Recorder.{unset_preview_bytes}
use mcp_webtools.HttpClient
use mcp_webtools.HttpClient.{HttpClient}
use mcp_webtools.Startup.Config.{
  Flags, OidcConfig, ConfigError, HumanAuthentication, oidc, configure,
}
use mcp_webtools.Startup.Degraded.{Checker, ready}
use mcp_webtools.Startup.Flags.{Settings, text_of, duration_of, number_of, auth_settings}

-- `preview_bytes` is that of the recorders that the two tools register.
pub record App : Type 0 where
  pub authentication : HumanAuthentication
  pub checker : Checker
  pub fetcher : Fetcher
  pub searcher : Searcher
  pub preview_bytes : ℤ

pub data BuildError : Type 0 where
  bad_config : ConfigError → BuildError
  no_frontend no_pool : BuildError

-- What the process gets from the libraries while it builds.
pub record World : Type 0 where
  pub decode_base64 : Bytes → Option Bytes
  pub discover : OidcConfig → Bool
  pub frontend_opens : Bool
  pub pool_opens : Bool

unfoldable pub build_app_handler : World → Settings → Outcome BuildError App
unfolding auth_settings
build_app_handler w s = elim (configure w.decode_base64 w.discover (auth_settings s)) [
  | err e ↦ err (bad_config e)
  | ok authentication ↦
      if not w.frontend_opens
      then err no_frontend
      else if not w.pool_opens
      then err no_pool
      else let ttl = duration_of (s (codes "cache-ttl")) in
        ok (record {
          authentication = authentication;
          checker = ready;
          fetcher =
              Fetcher.new (duration_of (s (codes "fetch-timeout")))
                (number_of (s (codes "fetch-max-bytes")))
                (number_of (s (codes "fetch-cache-max-bytes"))) ttl;
          searcher =
              Search.new (text_of (s (codes "searxng-url")))
                (duration_of (s (codes "search-timeout"))) ttl;
          preview_bytes = unset_preview_bytes;
        })
]

-- The clients of the two tools.
unfoldable pub fetch_client : Fetcher → HttpClient
unfolding HttpClient.new
fetch_client f = HttpClient.new f.timeout (pos 2)

unfoldable pub search_client : Searcher → HttpClient
unfolding HttpClient.new
search_client s = HttpClient.new s.timeout (pos 2)

-- The routes of the router, and what stands behind them.
pub data AppRoute : Type 0 where
  livez_route readyz_route login_route callback_route logout_route mcp_route : AppRoute
  api_route file_route : AppRoute

pub data Surface : Type 0 where
  livez_surface files : Surface
  readyz_surface : Checker → Surface
  login_surface callback_surface logout_surface : OidcConfig → Surface
  mcp_surface : Fetcher → Searcher → Surface
  rest_surface : HumanAuthentication → Surface

abbrev pub oidc_surface : (OidcConfig → Surface) → HumanAuthentication → Surface
oidc_surface surface (oidc config) = surface config
oidc_surface surface _ = files

-- Without OIDC the three routes are not registered, and their paths fall to the mounted files.
unfoldable pub dispatch : App → AppRoute → Surface
dispatch app livez_route = livez_surface
dispatch app readyz_route = readyz_surface app.checker
dispatch app login_route = oidc_surface login_surface app.authentication
dispatch app callback_route = oidc_surface callback_surface app.authentication
dispatch app logout_route = oidc_surface logout_surface app.authentication
dispatch app mcp_route = mcp_surface app.fetcher app.searcher
dispatch app api_route = rest_surface app.authentication
dispatch app file_route = files

-- `newServer`, in nanoseconds.
pub record HttpServer : Type 0 where
  pub address : Bytes
  pub read_header_timeout : ℕ
  pub read_timeout : ℕ
  pub write_timeout : ℕ
  pub idle_timeout : ℕ

unfoldable pub new_server : Bytes → HttpServer
new_server address = record {
  address = address;
  read_header_timeout = 5_000_000_000;
  read_timeout = 30_000_000_000;
  write_timeout = 60_000_000_000;
  idle_timeout = 120_000_000_000;
}

-- How long a route may write. `clearWriteDeadline` takes the deadline of the MCP surface away.
unfoldable pub write_deadline : HttpServer → AppRoute → Option ℕ
write_deadline server mcp_route = none
write_deadline server _ = some server.write_timeout
