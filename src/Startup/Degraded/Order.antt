-- ===== src/Startup/Degraded/Order.antt =====
-- In which order the routes, the checker and the pruning come: Startup.Degraded.
use mcp_webtools.Prelude.{
  ◌≡◌, refl, inl, inr, Bool, true, false, Option, none, some, List, [], ◌∷◌, arith, Bool-cases,
}
use mcp_webtools.Health.{readyz-code}
use mcp_webtools.Startup.Degraded.{
  Phase, retrying, publishing, serving, stopped, failed_to_build, failed_to_listen, failed_to_stop,
  Server, serve_ready, serve_degraded, boot, Event, listener_ended, open_failed, published,
  cancelled, opened, handle, step, run, other_route, routed, ping_works, reply, SaysReady,
}

-- The checker says ready only when the routes are in place, and history is pruned only then.
pub record IsOrdered {App : Type 0} (s : Server App) : Type 0 where
  pub routes_first : s.checker.migrations_ready ≡ true → (app : App) × (s.app ≡ some app)
  pub none_yet : s.phase ≡ retrying → s.app ≡ none
  pub swapped : s.phase ≡ publishing → (app : App) × (s.app ≡ some app)
  pub pruned : s.pruning ≡ true → s.checker.migrations_ready ≡ true

handle-IsOrdered :
    {App : Type 0} (p : Phase) (e : Event App) (s : Server App)
    → s.phase ≡ p
    → IsOrdered s
    → IsOrdered (handle p e s)
unfolding handle
handle-IsOrdered retrying open_failed s at h = record {
  routes_first = h.routes_first;
  none_yet = h.none_yet;
  swapped = h.swapped;
  pruned = h.pruned;
}
handle-IsOrdered retrying (opened none) s at h = record {
  routes_first = h.routes_first;
  none_yet = λ e. grind arith;
  swapped = λ e. grind arith;
  pruned = h.pruned;
}
handle-IsOrdered retrying (opened (some app)) s at h = record {
  routes_first = λ m. (app, refl);
  none_yet = λ e. grind arith;
  swapped = λ e. (app, refl);
  pruned = h.pruned;
}
handle-IsOrdered publishing published s at h = record {
  routes_first = λ m. h.swapped at;
  none_yet = λ e. grind arith;
  swapped = λ e. h.swapped at;
  pruned = λ e. refl;
}
handle-IsOrdered retrying (cancelled drained) s at h = record {
  routes_first = h.routes_first;
  none_yet = λ e. grind arith;
  swapped = λ e. grind arith;
  pruned = h.pruned;
}
handle-IsOrdered serving (cancelled drained) s at h = record {
  routes_first = h.routes_first;
  none_yet = λ e. grind arith;
  swapped = λ e. grind arith;
  pruned = h.pruned;
}
handle-IsOrdered retrying (listener_ended closed) s at h = record {
  routes_first = h.routes_first;
  none_yet = λ e. grind arith;
  swapped = λ e. grind arith;
  pruned = h.pruned;
}
handle-IsOrdered serving (listener_ended closed) s at h = record {
  routes_first = h.routes_first;
  none_yet = λ e. grind arith;
  swapped = λ e. grind arith;
  pruned = h.pruned;
}
handle-IsOrdered retrying published s at h = h
handle-IsOrdered publishing open_failed s at h = h
handle-IsOrdered publishing (cancelled drained) s at h = h
handle-IsOrdered publishing (listener_ended closed) s at h = h
handle-IsOrdered publishing (opened a) s at h = h
handle-IsOrdered serving open_failed s at h = h
handle-IsOrdered serving published s at h = h
handle-IsOrdered serving (opened a) s at h = h
handle-IsOrdered stopped e s at h = h
handle-IsOrdered failed_to_build e s at h = h
handle-IsOrdered failed_to_listen e s at h = h
handle-IsOrdered failed_to_stop e s at h = h

run-IsOrdered :
    {App : Type 0} (s : Server App) (events : List (Event App))
    → IsOrdered s
    → IsOrdered (run s events)
unfolding run step
run-IsOrdered s [] h = h
run-IsOrdered s (e ∷ events) h =
    run-IsOrdered (step s e) events (handle-IsOrdered s.phase e s refl h)

serve_degraded-IsOrdered : {App : Type 0} → IsOrdered (serve_degraded {App = App})
unfolding serve_degraded
serve_degraded-IsOrdered = record {
  routes_first = λ m. grind arith;
  none_yet = λ e. refl;
  swapped = λ e. grind arith;
  pruned = λ e. grind arith;
}

boot-IsOrdered :
    {App : Type 0} (database : Bool) (built : Option App) → IsOrdered (boot database built)
unfolding boot serve_ready serve_degraded
boot-IsOrdered false built = serve_degraded-IsOrdered
boot-IsOrdered true none = record {
  routes_first = λ m. grind arith;
  none_yet = λ e. refl;
  swapped = λ e. grind arith;
  pruned = λ e. grind arith;
}
boot-IsOrdered true (some app) = record {
  routes_first = λ m. (app, refl);
  none_yet = λ e. grind arith;
  swapped = λ e. (app, refl);
  pruned = λ e. refl;
}

readyz-migrations :
    {App : Type 0} (s : Server App) (pool_answers : Bool)
    → SaysReady s pool_answers
    → s.checker.migrations_ready ≡ true
unfolding reply
readyz-migrations s pool_answers says = elim (Bool-cases s.checker.migrations_ready) [
  | inl it_is ↦ it_is
  | inr it_is ↦ grind (
    arith,
    readyz-code (record {
      ping = ping_works s.checker.ping pool_answers;
      migrations_ready = s.checker.migrations_ready;
      oidc_ready = s.checker.oidc_ready;
    }),
  )
]

-- Whether the database opens at once or later, and whatever happened since the process started,
-- when /readyz answers 200 the application's routes answer.
pub run-SaysReady :
    {App : Type 0} (database : Bool) (built : Option App) (events : List (Event App))
    (pool_answers : Bool)
    → SaysReady (run (boot database built) events) pool_answers
    → (app : App) × (reply (run (boot database built) events) pool_answers other_route ≡ routed app)
unfolding reply
run-SaysReady database built events pool_answers says =
    let h = run-IsOrdered (boot database built) events (boot-IsOrdered database built) in
    let (app, set) =
      h.routes_first (readyz-migrations (run (boot database built) events) pool_answers says) in
    (app, ground (arith, set))
