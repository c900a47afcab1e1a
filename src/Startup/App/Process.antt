-- ===== src/Startup/App/Process.antt =====
-- `serveReady` and the root command's action in cmd/webtools/main.go, up to the point where requests are
-- served: what the process hands to the rest of the program.
use mcp_webtools.Prelude.{Outcome, ok, err, ℤ, Bytes, codes}
use mcp_webtools.Startup.Flags.{Settings, text_of, duration_of}
use mcp_webtools.Startup.App.{App, BuildError, World, build_app_handler, HttpServer, new_server}

-- The application, its listener, the database's DSN, and the retention of the pruning of history.
pub record Process : Type 0 where
  pub app : App
  pub server : HttpServer
  pub dsn : Bytes
  pub retention : ℤ

unfoldable pub start_ready : World → Settings → Outcome BuildError Process
start_ready w s = elim (build_app_handler w s) [
  | err e ↦ err e
  | ok app ↦ ok (record {
    app = app;
    server = new_server (text_of (s (codes "listen-addr")));
    dsn = text_of (s (codes "db-dsn"));
    retention = duration_of (s (codes "history-retention"));
  })
]
