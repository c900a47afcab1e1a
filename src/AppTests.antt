-- ===== src/AppTests.antt =====
-- Runs of the building of the application, and of the end of the process.
use mcp_webtools.Prelude.{
  ok, err, ℕ, ◌≡◌, refl, true, false, none, some, List, [], ◌∷◌, ◌++◌, if◌then◌else◌, pos, Bytes,
  codes, same,
}
use mcp_webtools.Startup.Config.{OidcConfig, missing_setting, configure, oidc}
use mcp_webtools.Startup.Flags.{Flag, Value, text, number, flags, Settings, auth_settings}
use mcp_webtools.Startup.App.{
  App, bad_config, World, build_app_handler, dispatch, mcp_route, file_route, new_server,
  write_deadline,
}
use mcp_webtools.Startup.App.Secured.{IsSecured, built_app, build-IsSecured}
use mcp_webtools.Startup.App.Process.{start_ready}
use mcp_webtools.Startup.App.Unread.{KeepsDefault, start-AgreeBut}
use mcp_webtools.Startup.Degraded
use mcp_webtools.Startup.Degraded.{
  Server, boot, exit_code, Event, open_failed, published, cancelled, listener_ended, run, step,
  handle,
}
use mcp_webtools.Startup.Degraded.Exit.{AnyGraceful, run-exits}

program : Unit {0}
unfolding configure auth_settings build_app_handler dispatch new_server write_deadline boot
    exit_code run step handle same
program = tt

-- The values that are given, and the declared defaults.
abbrev default_of : List Flag → Settings
default_of [] name = text []
default_of (f ∷ rest) name = if same f.name name then f.default else default_of rest name

abbrev given : List (Bytes × Value) → Settings
given [] name = default_of flags name
given ((key, value) ∷ rest) name = if same key name then value else given rest name

abbrev key : Bytes
key = codes "0123456789012345678901234567890a"

abbrev oidc_settings : List (Bytes × Value)
oidc_settings =
    (codes "oidc-issuer", text (codes "https://idp"))
    ∷ (codes "oidc-client-id", text (codes "web"))
    ∷ (codes "oidc-client-secret", text (codes "x"))
    ∷ (codes "public-url", text (codes "https://web"))
    ∷ (codes "session-encryption-key", text key)
    ∷ []

abbrev config : OidcConfig
config = record {
  issuer = codes "https://idp";
  client_id = codes "web";
  client_secret = codes "x";
  public_url = codes "https://web";
  admin_group = codes "admins";
  encryption_key = key;
}

abbrev world : World
world = record {
  decode_base64 = λ s. some s;
  discover = λ c. true;
  frontend_opens = true;
  pool_opens = true;
}

abbrev app : App
app = built_app world (given oidc_settings) (oidc config)

built : build_app_handler world (given oidc_settings) ≡ ok app
unfolding program
built = refl

-- Without settings the process refuses to build.
refuses : build_app_handler world (given []) ≡ err (bad_config missing_setting)
unfolding program
refuses = refl

build-IsSecured_example : IsSecured world (given oidc_settings) app
build-IsSecured_example = build-IsSecured world (given oidc_settings) app built

abbrev with_preview : Settings
with_preview = given ((codes "history-preview-bytes", number (pos 10)) ∷ oidc_settings)

-- A smaller preview changes nothing.
start-AgreeBut_example :
    (start_ready world with_preview ≡ start_ready world (given oidc_settings))
    × KeepsDefault (start_ready world with_preview)
unfolding program
start-AgreeBut_example = start-AgreeBut world with_preview (given oidc_settings) (
  refl,
  (
    refl,
    (
      refl,
      (
        refl,
        (
          refl,
          (
            refl,
            (
              refl,
              (refl, (tt, (refl, (refl, (refl, (refl, (refl, (refl, (refl, (refl, tt)))))))))),
            ),
          ),
        ),
      ),
    ),
  ),
)

-- The MCP surface has no deadline, whatever the time-out of the server is.
deadlines :
    (write_deadline (new_server (codes ":8080")) mcp_route ≡ none)
    × (write_deadline (new_server (codes ":8080")) file_route ≡ some 60_000_000_000)
unfolding program
deadlines = (refl, refl)

abbrev ended_events : List (Event ℕ)
ended_events = open_failed ∷ Degraded.opened (some 5) ∷ published ∷ cancelled true ∷ []

run-exits_example :
    (run (boot false none) (ended_events ++ open_failed ∷ []) ≡ run (boot false none) ended_events)
    × (◌≡◌ {A = ℕ} 0 0 → AnyGraceful ended_events)
unfolding program
run-exits_example = run-exits false none ended_events (open_failed ∷ []) 0 refl
