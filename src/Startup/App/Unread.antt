-- ===== src/Startup/App/Unread.antt =====
-- Which flags the application depends on: Startup.App.
use mcp_webtools.Prelude.{
  Outcome, ok, err, ◌≡◌, refl, inl, inr, Outcome-cases, not, List, [], ◌∷◌, if◌then◌else◌, Bytes,
  codes, same,
}
use mcp_webtools.Startup.Config.{configure, Flags}
use mcp_webtools.Startup.Flags.{
  Flag, Value, Settings, flags, text_of, duration_of, number_of, switch_of, auth_settings,
}
use mcp_webtools.Startup.App.{
  App, BuildError, bad_config, no_frontend, no_pool, World, build_app_handler,
}
use mcp_webtools.Startup.Degraded.{ready}
use mcp_webtools.Startup.App.{new_server}
use mcp_webtools.Startup.App.Process.{Process, start_ready}
use mcp_webtools.Startup.App.Secured.{build-cases}
use mcp_webtools.Recorder.{unset_preview_bytes, preview_limit}
use mcp_webtools.Fetch.Fetcher
use mcp_webtools.Search

-- Two resolutions of the declared flags that differ at most in this one.
abbrev pub AgreeBut : Bytes → Settings → Settings → List Flag → Type 0
AgreeBut name s t [] = Unit {0}
AgreeBut name s t (f ∷ rest) =
    (if same f.name name then Unit {0} else (s f.name ≡ t f.name)) × AgreeBut name s t rest

auth_settings-agree :
    (s t : Settings)
    → AgreeBut (codes "history-preview-bytes") s t flags
    → auth_settings s ≡ auth_settings t
unfolding auth_settings same
auth_settings-agree s t h =
    let a = h.1.1.1.1.1.1.1.1.1.1 in
    λ i. record {
      auth_stub = switch_of (a.0 i);
      oidc_issuer = text_of (a.1.0 i);
      oidc_client_id = text_of (a.1.1.0 i);
      oidc_client_secret = text_of (a.1.1.1.0 i);
      public_url = text_of (a.1.1.1.1.0 i);
      admin_group = text_of (a.1.1.1.1.1.0 i);
      session_encryption_key = text_of (a.1.1.1.1.1.1.0 i);
    }

-- The application as a function of the settings that it reads.
abbrev built_from :
    World → Flags → Value → Value → Value → Value → Value → Value → Outcome BuildError App
built_from w auth url timeout size budget ttl search_timeout =
    elim (configure w.decode_base64 w.discover auth) [
      | err e ↦ err (bad_config e)
      | ok authentication ↦
          if not w.frontend_opens
          then err no_frontend
          else if not w.pool_opens
          then err no_pool
          else ok (record {
            authentication = authentication;
            checker = ready;
            fetcher =
                Fetcher.new (duration_of timeout) (number_of size) (number_of budget)
                  (duration_of ttl);
            searcher = Search.new (text_of url) (duration_of search_timeout) (duration_of ttl);
            preview_bytes = unset_preview_bytes;
          })
    ]

build-AgreeBut :
    (w : World) (s t : Settings)
    → AgreeBut (codes "history-preview-bytes") s t flags
    → build_app_handler w s ≡ build_app_handler w t
unfolding build_app_handler same
build-AgreeBut w s t h =
    let a = h.1.1 in
    λ i.
      built_from w (auth_settings-agree s t h i) (a.0 i) (a.1.0 i) (a.1.1.0 i) (a.1.1.1.0 i)
        (a.1.1.1.1.0 i) (a.1.1.1.1.1.0 i)

-- The process as a function of the application and the settings that it reads besides.
abbrev started_from : Outcome BuildError App → Value → Value → Value → Outcome BuildError Process
started_from built address dsn retention = elim built [
  | err e ↦ err e
  | ok app ↦ ok (record {
    app = app;
    server = new_server (text_of address);
    dsn = text_of dsn;
    retention = duration_of retention;
  })
]

-- Of an output, a process that starts keeps at most the declared default.
abbrev pub KeepsDefault : Outcome BuildError Process → Type 0
KeepsDefault (err e) = Unit {0}
KeepsDefault (ok p) = preview_limit p.app.preview_bytes ≡ 65_536

start_ready-KeepsDefault : (w : World) (s : Settings) → KeepsDefault (start_ready w s)
unfolding start_ready preview_limit
start_ready-KeepsDefault w s = elim (Outcome-cases (build_app_handler w s)) [
  | inl (e, bad) ↦ rw (KeepsDefault, start_ready, bad) tt
  | inr (app, good) ↦
      let (a, chosen, e) = build-cases w s app good in
      rw (KeepsDefault, start_ready, good) (rw e refl)
]

-- Two settings that agree on every declared flag but --history-preview-bytes start the same
-- process, with the same application, listener, database and retention, or fail the same way, and
-- the recorders of a process that starts have the limit of 65536 bytes.
pub start-AgreeBut :
    (w : World) (s t : Settings)
    → AgreeBut (codes "history-preview-bytes") s t flags
    → (start_ready w s ≡ start_ready w t) × KeepsDefault (start_ready w s)
unfolding start_ready same
start-AgreeBut w s t h =
    let a = h.1.1.1.1.1.1.1.1.1 in
    (
      λ i. started_from (build-AgreeBut w s t h i) (h.0 i) (h.1.0 i) (a.0 i),
      start_ready-KeepsDefault w s,
    )
