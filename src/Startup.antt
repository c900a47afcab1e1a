-- ===== src/Startup.antt =====
-- cmd/webtools/main.go: how the process comes up. Opening the database, building the routes, the
-- listener and the signals are events.
pub mod Config
pub mod Flags
pub mod Oidc
pub mod App
pub mod Retry
pub mod Degraded
pub mod Pruning
