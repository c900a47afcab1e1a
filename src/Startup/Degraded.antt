-- ===== src/Startup/Degraded.antt =====
-- `serveReady` and `serveDegradedUntilReady`: what the listener answers while the database is away, and
-- how the routes are swapped in. An event is one step of one of the goroutines.
use mcp_webtools.Prelude.{
  ℕ, ◌≡◌, Bool, true, false, Option, none, some, List, [], ◌∷◌, if◌then◌else◌,
}
pub mod Order
pub mod Publish
pub mod Exit
use mcp_webtools.Health.{ReadyChecker, livez, readyz}
use mcp_webtools.Startup.Retry.{first_backoff, next_backoff}

-- `Ping` returns the latest error of the opening, or asks the pool.
pub data Ping : Type 0 where
  last_error pool : Ping

pub record Checker : Type 0 where
  pub ping : Ping
  pub migrations_ready : Bool
  pub oidc_ready : Bool

-- `publishing` stands between the two writes of the swap, of the handler and of the checker.
pub data Phase : Type 0 where
  retrying publishing serving stopped failed_to_build failed_to_listen failed_to_stop : Phase

-- `app` is the pointer `appHandler`: the routes built over the database.
pub record Server (App : Type 0) : Type 0 where
  pub phase : Phase
  pub app : Option App
  pub checker : Checker
  pub backoff : ℕ
  pub pruning : Bool

abbrev pub not_ready : Checker
not_ready = record { ping = last_error; migrations_ready = false; oidc_ready = false }

abbrev pub ready : Checker
ready = record { ping = pool; migrations_ready = true; oidc_ready = true }

-- `serveReady`, once its routes are built.
unfoldable pub serve_ready : {App : Type 0} → App → Server App
serve_ready app = record {
  phase = serving;
  app = some app;
  checker = ready;
  backoff = first_backoff;
  pruning = true;
}

unfoldable pub serve_degraded : {App : Type 0} → Server App
serve_degraded = record {
  phase = retrying;
  app = none;
  checker = not_ready;
  backoff = first_backoff;
  pruning = false;
}

-- The action of the root command: what opening the database and building the routes gave.
unfoldable pub boot : {App : Type 0} → Bool → Option App → Server App
unfolding serve_ready serve_degraded
boot false built = serve_degraded
boot true none = record serve_degraded { phase = failed_to_build }
boot true (some app) = serve_ready app

-- The status of the process that `main` ends with.
unfoldable pub exit_code : Phase → Option ℕ
exit_code retrying = none
exit_code publishing = none
exit_code serving = none
exit_code stopped = some 0
exit_code failed_to_build = some 1
exit_code failed_to_listen = some 1
exit_code failed_to_stop = some 1

-- `opened` carries the result of `buildAppHandler`, `cancelled` whether the shutdown drains within its
-- five seconds, and `listener_ended` whether the listener was closed or failed.
pub data Event (App : Type 0) : Type 0 where
  open_failed published : Event App
  cancelled listener_ended : Bool → Event App
  opened : Option App → Event App

abbrev pub shut_down : Bool → Phase
shut_down drained = if drained then stopped else failed_to_stop

abbrev pub after_listener : Bool → Phase
after_listener closed = if closed then stopped else failed_to_listen

-- An event that is not due in a phase does not happen there.
unfoldable pub handle : {App : Type 0} → Phase → Event App → Server App → Server App
unfolding next_backoff
handle retrying open_failed s = record s {
  checker = record s.checker { ping = last_error };
  backoff = next_backoff s.backoff;
}
handle retrying (opened none) s = record s { phase = failed_to_build }
handle retrying (opened (some app)) s = record s { phase = publishing; app = some app }
handle publishing published s = record s { phase = serving; checker = ready; pruning = true }
handle retrying (cancelled drained) s = record s { phase = shut_down drained }
handle serving (cancelled drained) s = record s { phase = shut_down drained }
handle retrying (listener_ended closed) s = record s { phase = after_listener closed }
handle serving (listener_ended closed) s = record s { phase = after_listener closed }
handle _ _ s = s

unfoldable pub step : {App : Type 0} → Server App → Event App → Server App
unfolding handle
step s e = handle s.phase e s

unfoldable pub run : {App : Type 0} → Server App → List (Event App) → Server App
run s [] = s
run s (e ∷ events) = run (step s e) events

pub data Route : Type 0 where
  livez_route readyz_route other_route : Route

-- The status of the listener's own answers, or the routes that answer. `pool_answers` is what the
-- database's ping gives at the time of the request.
pub data Reply (App : Type 0) : Type 0 where
  status : ℕ → Reply App
  routed : App → Reply App

abbrev pub ping_works : Ping → Bool → Bool
ping_works last_error pool_answers = false
ping_works pool pool_answers = pool_answers

unfoldable pub reply : {App : Type 0} → Server App → Bool → Route → Reply App
reply s pool_answers livez_route = status livez
reply s pool_answers readyz_route =
    status
      (readyz (record {
        ping = ping_works s.checker.ping pool_answers;
        migrations_ready = s.checker.migrations_ready;
        oidc_ready = s.checker.oidc_ready;
      })).code
reply s pool_answers other_route = elim s.app [ none ↦ status 503 | some app ↦ routed app ]

-- A listener that says it is ready.
abbrev pub SaysReady : {App : Type 0} → Server App → Bool → Type 0
SaysReady s pool_answers = reply s pool_answers readyz_route ≡ status 200
