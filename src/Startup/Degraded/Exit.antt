-- ===== src/Startup/Degraded/Exit.antt =====
-- How the process ends: Startup.Degraded.
use mcp_webtools.Prelude.{
  ℕ, ◌≡◌, refl, ap, ◌∙◌, subst, ◌≢◌, ◌⊎◌, inl, inr, Bool, true, false, Option, none, some, List, [],
  ◌∷◌, ◌++◌, arith,
}
use mcp_webtools.Startup.Degraded.{
  Phase, retrying, publishing, serving, stopped, failed_to_build, failed_to_listen, failed_to_stop,
  Server, serve_ready, serve_degraded, boot, exit_code, Event, open_failed, published, cancelled,
  listener_ended, opened, handle, step, run,
}

-- A shutdown that drained, or a listener that was closed.
abbrev pub IsGraceful : {App : Type 0} → Event App → Type 0
IsGraceful (cancelled true) = Unit {0}
IsGraceful (listener_ended true) = Unit {0}
IsGraceful _ = ⊥

abbrev pub AnyGraceful : {App : Type 0} → List (Event App) → Type 0
AnyGraceful [] = ⊥
AnyGraceful (e ∷ events) = IsGraceful e ⊎ AnyGraceful events

handle-stopped :
    {App : Type 0} (p : Phase) (e : Event App) (s : Server App)
    → s.phase ≡ p
    → (handle p e s).phase ≡ stopped
    → (p ≡ stopped) ⊎ IsGraceful e
unfolding handle
handle-stopped stopped e s at h = inl refl
handle-stopped p (cancelled true) s at h = inr tt
handle-stopped p (listener_ended true) s at h = inr tt
handle-stopped retrying (cancelled false) s at h = absurd (ground arith)
handle-stopped serving (cancelled false) s at h = absurd (ground arith)
handle-stopped publishing (cancelled false) s at h = absurd (ground arith)
handle-stopped retrying (listener_ended false) s at h = absurd (ground arith)
handle-stopped serving (listener_ended false) s at h = absurd (ground arith)
handle-stopped publishing (listener_ended false) s at h = absurd (ground arith)
handle-stopped retrying open_failed s at h = absurd (ground arith)
handle-stopped serving open_failed s at h = absurd (ground arith)
handle-stopped publishing open_failed s at h = absurd (ground arith)
handle-stopped retrying published s at h = absurd (ground arith)
handle-stopped serving published s at h = absurd (ground arith)
handle-stopped publishing published s at h = absurd (ground arith)
handle-stopped retrying (opened none) s at h = absurd (ground arith)
handle-stopped retrying (opened (some app)) s at h = absurd (ground arith)
handle-stopped serving (opened app) s at h = absurd (ground arith)
handle-stopped publishing (opened app) s at h = absurd (ground arith)
handle-stopped failed_to_build e s at h = absurd (ground arith)
handle-stopped failed_to_listen e s at h = absurd (ground arith)
handle-stopped failed_to_stop e s at h = absurd (ground arith)

run-stopped :
    {App : Type 0} (s : Server App) (events : List (Event App))
    → (run s events).phase ≡ stopped
    → (s.phase ≡ stopped) ⊎ AnyGraceful events
unfolding run step
run-stopped s [] h = inl h
run-stopped s (e ∷ events) h = elim (run-stopped (step s e) events h) [
  | inr rest ↦ inr (inr rest)
  | inl before ↦ elim (handle-stopped s.phase e s refl before) [
    | inl stopped_already ↦ inl stopped_already
    | inr graceful ↦ inr (inl graceful)
  ]
]

handle_ended :
    {App : Type 0} (p : Phase) (e : Event App) (s : Server App) (code : ℕ)
    → exit_code p ≡ some code
    → handle p e s ≡ s
unfolding handle exit_code
handle_ended stopped e s code h = refl
handle_ended failed_to_build e s code h = refl
handle_ended failed_to_listen e s code h = refl
handle_ended failed_to_stop e s code h = refl
handle_ended retrying e s code h = absurd (ground arith)
handle_ended publishing e s code h = absurd (ground arith)
handle_ended serving e s code h = absurd (ground arith)

step_ended :
    {App : Type 0} (s : Server App) (e : Event App) (code : ℕ)
    → exit_code s.phase ≡ some code
    → step s e ≡ s
unfolding step
step_ended s e code h = handle_ended s.phase e s code h

run_ended :
    {App : Type 0} (s : Server App) (events : List (Event App)) (code : ℕ)
    → exit_code s.phase ≡ some code
    → run s events ≡ s
unfolding run
run_ended s [] code h = refl
run_ended s (e ∷ events) code h =
    let same_server = step_ended s e code h in
    ap (λ t. run t events) same_server ∙ run_ended s events code h

code-zero : (p : Phase) → exit_code p ≡ some 0 → p ≡ stopped
unfolding exit_code
code-zero stopped h = refl
code-zero retrying h = absurd (ground arith)
code-zero publishing h = absurd (ground arith)
code-zero serving h = absurd (ground arith)
code-zero failed_to_build h = absurd (ground arith)
code-zero failed_to_listen h = absurd (ground arith)
code-zero failed_to_stop h = absurd (ground arith)

run-append :
    {App : Type 0} (s : Server App) (before after : List (Event App))
    → run s (before ++ after) ≡ run (run s before) after
unfolding run
run-append s [] after = refl
run-append s (e ∷ before) after = run-append (step s e) before after

boot-not_stopped :
    {App : Type 0} (database : Bool) (built : Option App) → (boot database built).phase ≢ stopped
unfolding boot serve_ready serve_degraded
boot-not_stopped false built h = cc
boot-not_stopped true none h = cc
boot-not_stopped true (some app) h = cc

-- Whether the database opens at once or later, a process that has an exit status handles no
-- further event, and the status is 0 only after a shutdown that drained or a listener that was
-- closed.
pub run-exits :
    {App : Type 0} (database : Bool) (built : Option App) (before after : List (Event App))
    (code : ℕ)
    → exit_code (run (boot database built) before).phase ≡ some code
    → (run (boot database built) (before ++ after) ≡ run (boot database built) before)
      × ((code ≡ 0) → AnyGraceful before)
run-exits database built before after code h = (
  run-append (boot database built) before after
      ∙ run_ended (run (boot database built) before) after code h,
  λ zero_code.
      elim (run-stopped (boot database built) before (
        code-zero (run (boot database built) before).phase
          (subst (λ n. exit_code (run (boot database built) before).phase ≡ some n) zero_code h))) [
            | inl at_once ↦ absurd (boot-not_stopped database built at_once)
            | inr graceful ↦ graceful
          ],
)
