-- ===== src/Startup/Degraded/Publish.antt =====
-- The listener while the opening fails, and after it succeeded: Startup.Degraded.
use mcp_webtools.Prelude.{
  ℕ, zero, suc, ◌≡◌, refl, sym, ap, subst, Bool, true, false, none, some, List, [], ◌∷◌,
}
use mcp_webtools.Health.{readyz}
use mcp_webtools.Startup.Degraded.{
  last_error, Checker, retrying, Server, not_ready, serve_degraded, Event, open_failed, published,
  opened, handle, step, run, readyz_route, other_route, status, routed, reply, SaysReady,
}

-- The opening fails this many times.
abbrev pub failures_then : {App : Type 0} → ℕ → List (Event App) → List (Event App)
failures_then zero events = events
failures_then (suc n) events = open_failed ∷ failures_then n events

-- A server whose database is still away.
record IsWaiting {App : Type 0} (s : Server App) : Type 0 where
  retries : s.phase ≡ retrying
  no_app : s.app ≡ none
  says : s.checker ≡ not_ready
  keeps : s.pruning ≡ false

handle-IsWaiting :
    {App : Type 0} (s : Server App) → IsWaiting s → IsWaiting (handle retrying open_failed s)
unfolding handle
handle-IsWaiting s h = record {
  retries = h.retries;
  no_app = h.no_app;
  says = ap (λ (c : Checker). record c { ping = last_error }) h.says;
  keeps = h.keeps;
}

run-failures :
    {App : Type 0} (n : ℕ) (s : Server App) (events : List (Event App))
    → IsWaiting s
    → (t : Server App) × (run s (failures_then n events) ≡ run t events) × IsWaiting t
unfolding run step
run-failures zero s events h = (s, refl, h)
run-failures (suc n) s events h =
    run-failures n (step s open_failed) events
      (subst (λ p. IsWaiting (handle p open_failed s)) (sym h.retries) (handle-IsWaiting s h))

published_after :
    {App : Type 0} (s : Server App) (app : App)
    → IsWaiting s
    → SaysReady (run s (opened (some app) ∷ published ∷ [])) true
      × (reply (run s (opened (some app) ∷ published ∷ [])) true other_route ≡ routed app)
unfolding reply run step handle readyz
published_after s app h =
    subst
      (λ p.
        SaysReady (step (handle p (opened (some app)) s) published) true
        × (reply (step (handle p (opened (some app)) s) published) true other_route ≡ routed app))
      (sym h.retries) (refl, refl)

serve_degraded-IsWaiting : {App : Type 0} → IsWaiting (serve_degraded {App = App})
unfolding serve_degraded
serve_degraded-IsWaiting = record { retries = refl; no_app = refl; says = refl; keeps = refl }

waiting_replies :
    {App : Type 0} (s : Server App) (pool_answers : Bool)
    → IsWaiting s
    → (reply s pool_answers readyz_route ≡ status 503)
      × (reply s pool_answers other_route ≡ status 503)
unfolding reply readyz
waiting_replies s pool_answers h = (rw h.says refl, rw h.no_app refl)

-- However often the opening of the database fails, until it succeeds /readyz and the application's
-- routes answer 503; once it has succeeded and the routes are swapped in, /readyz answers 200
-- while the database answers, and the routes are the application's.
pub run-publishes :
    {App : Type 0} (n : ℕ) (app : App) (pool_answers : Bool)
    → (reply (run serve_degraded (failures_then {App = App} n [])) pool_answers readyz_route
        ≡ status 503)
      × (reply (run serve_degraded (failures_then {App = App} n [])) pool_answers other_route
          ≡ status 503)
      × SaysReady (run serve_degraded (failures_then n (opened (some app) ∷ published ∷ []))) true
      × (reply
            (run serve_degraded (failures_then n (opened (some app) ∷ published ∷ [])))
            true
            other_route
          ≡ routed app)
unfolding run
run-publishes {App} n app pool_answers =
    let (s, is, waits) = run-failures {App = App} n serve_degraded [] serve_degraded-IsWaiting in
    let (t, then_t, still) =
      run-failures {App = App} n serve_degraded (opened (some app) ∷ published ∷ [])
        serve_degraded-IsWaiting in
    let (not_yet, nor) = waiting_replies s pool_answers waits in
    let (says, routes) = published_after t app still in
    (rw is not_yet, rw is nor, rw then_t says, rw then_t routes)
