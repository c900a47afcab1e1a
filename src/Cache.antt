-- ===== src/Cache.antt =====
-- internal/cache/cache.go
pub mod Table
pub mod Memory
pub mod Database
