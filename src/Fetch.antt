-- ===== src/Fetch.antt =====
-- internal/tools/fetch: the tool that retrieves a URL for an agent, a page at a time.
pub mod Page
pub mod Stream
pub mod Fetcher
pub mod Requests
pub mod Handler
