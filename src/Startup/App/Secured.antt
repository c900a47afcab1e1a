-- ===== src/Startup/App/Secured.antt =====
-- What every application that is built has: Startup.App.
use mcp_webtools.Prelude.{
  ok, ◌≡◌, sym, subst, ◌⊎◌, inl, inr, true, false, arith, Bool-cases, Option-cases, length, ℤ, pos,
  ltb_ℤ, Bytes, codes, Outcome-cases,
}
use mcp_webtools.Fetch.Fetcher
use mcp_webtools.Fetch.Fetcher.{Fetcher}
use mcp_webtools.Fetch.Fetcher.Safety.{IsWell, new-IsWell}
use mcp_webtools.Search
use mcp_webtools.Search.{Searcher}
use mcp_webtools.Search.Kept.{IsBounded, new-IsBounded}
use mcp_webtools.Recorder.{unset_preview_bytes}
use mcp_webtools.HttpClient
use mcp_webtools.Startup.Config.{Flags, OidcConfig, HumanAuthentication, stub, oidc, configure}
use mcp_webtools.Startup.Flags.{Settings, text_of, duration_of, number_of, switch_of, auth_settings}
use mcp_webtools.Startup.Degraded
use mcp_webtools.Startup.App.{
  App, World, build_app_handler, fetch_client, search_client, rest_surface, login_surface, files,
  api_route, login_route, dispatch,
}

-- The authentication that an accepted configuration gives.
abbrev pub Chosen : World → Flags → HumanAuthentication → Type 0
Chosen w flags a =
    ((flags.auth_stub ≡ true) × (a ≡ stub))
    ⊎ ((flags.auth_stub ≡ false)
        × ((config : OidcConfig) × (a ≡ oidc config)
            × (length config.encryption_key ≡ 32)
            × (w.discover config ≡ true)))

configure-Chosen :
    (w : World) (flags : Flags) (a : HumanAuthentication)
    → configure w.decode_base64 w.discover flags ≡ ok a
    → Chosen w flags a
unfolding configure
configure-Chosen w flags a h = elim (Bool-cases flags.auth_stub) [
  | inl stubbed ↦ inl (stubbed, ground (arith, stubbed, h))
  | inr real ↦ elim (Option-cases (w.decode_base64 flags.session_encryption_key)) [
    | inl missing ↦ absurd (ground (arith, real, missing, h))
    | inr (key, found) ↦
        let config : OidcConfig = record {
          issuer = flags.oidc_issuer;
          client_id = flags.oidc_client_id;
          client_secret = flags.oidc_client_secret;
          public_url = flags.public_url;
          admin_group = flags.admin_group;
          encryption_key = key;
        } in
        inr (
          real,
          (
            config,
            ground (arith, real, found, h),
            ground (arith, real, found, h),
            ground (arith, real, found, h),
          ),
        )
  ]
]

-- The REST API authenticates everybody only where the flag asks for it; else it is behind a discovered
-- issuer, with a key of the cipher's size, and so is the login. The tools' clients have a time-out, and
-- their caches are well formed.
pub record IsSecured (w : World) (s : Settings) (app : App) : Type 0 where
  pub fetcher_well : IsWell app.fetcher
  pub searcher_bounded : IsBounded app.searcher
  pub fetch_ends : ltb_ℤ (pos 0) (fetch_client app.fetcher).timeout ≡ true
  pub search_ends : ltb_ℤ (pos 0) (search_client app.searcher).timeout ≡ true
  pub stubbed :
      switch_of (s (codes "auth-stub")) ≡ true
      → (dispatch app api_route ≡ rest_surface stub) × (dispatch app login_route ≡ files)
  pub guarded :
      switch_of (s (codes "auth-stub")) ≡ false
      → (config : OidcConfig) × (dispatch app api_route ≡ rest_surface (oidc config))
        × (dispatch app login_route ≡ login_surface config)
        × (length config.encryption_key ≡ 32)
        × (w.discover config ≡ true)

fetch_timeout-pos :
    (timeout max_bytes budget ttl : ℤ)
    → ltb_ℤ (pos 0) (fetch_client (Fetcher.new timeout max_bytes budget ttl)).timeout ≡ true
unfolding fetch_client HttpClient.new Fetcher.new
fetch_timeout-pos timeout max_bytes budget ttl = ground arith

search_timeout-pos :
    (base_url : Bytes) (timeout ttl : ℤ)
    → ltb_ℤ (pos 0) (search_client (Search.new base_url timeout ttl)).timeout ≡ true
unfolding search_client HttpClient.new Search.new
search_timeout-pos base_url timeout ttl = ground arith

module _ (w : World) (s : Settings) where
  abbrev pub built_app : HumanAuthentication → App
  built_app a = record {
    authentication = a;
    checker = Degraded.ready;
    fetcher =
        Fetcher.new (duration_of (s (codes "fetch-timeout")))
          (number_of (s (codes "fetch-max-bytes"))) (number_of (s (codes "fetch-cache-max-bytes")))
          (duration_of (s (codes "cache-ttl")));
    searcher =
        Search.new (text_of (s (codes "searxng-url"))) (duration_of (s (codes "search-timeout")))
          (duration_of (s (codes "cache-ttl")));
    preview_bytes = unset_preview_bytes;
  }

  built_app-IsSecured :
      (a : HumanAuthentication) → Chosen w (auth_settings s) a → IsSecured w s (built_app a)
  unfolding dispatch auth_settings
  built_app-IsSecured a chosen = record {
    fetcher_well = new-IsWell _ _ _ _;
    searcher_bounded = new-IsBounded _ _ _;
    fetch_ends = fetch_timeout-pos _ _ _ _;
    search_ends = search_timeout-pos _ _ _;
    stubbed =
        λ on. elim chosen [ inl (_, e) ↦ (rw e, rw e) | inr (off, _) ↦ absurd (cc (on, off)) ];
    guarded = λ off. elim chosen [
      | inl (on, _) ↦ absurd (cc (on, off))
      | inr (_, (config, e, sized, found)) ↦ (config, rw e, rw e, sized, found)
    ];
  }

  pub build-cases :
      (app : App)
      → build_app_handler w s ≡ ok app
      → (a : HumanAuthentication) × (configure w.decode_base64 w.discover (auth_settings s) ≡ ok a)
        × (app ≡ built_app a)
  unfolding build_app_handler
  build-cases app h =
      elim (Outcome-cases (configure w.decode_base64 w.discover (auth_settings s))) [
        | inl (e, bad) ↦ absurd (ground (arith, bad, h))
        | inr (a, good) ↦ (a, good, ground (arith, good, h))
      ]

  -- An application that is built has well-formed caches and clients of the tools with a time-out
  -- that is positive; with --auth-stub its REST API stands behind the stub and the login is not
  -- there; without it the REST API and the login stand behind one configuration, whose issuer was
  -- discovered and whose key has 32 bytes.
  pub build-IsSecured : (app : App) → build_app_handler w s ≡ ok app → IsSecured w s app
  build-IsSecured app h =
      let (a, good, e) = build-cases app h in
      subst (IsSecured w s) (sym e)
        (built_app-IsSecured a (configure-Chosen w (auth_settings s) a good))
