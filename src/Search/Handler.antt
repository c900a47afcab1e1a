-- ===== src/Search/Handler.antt =====
-- internal/tools/search/handler.go: the tool's handler.
use mcp_webtools.Prelude.{Outcome, ℕ, Option, List, ℤ, Bytes}
use mcp_webtools.Fetch.Handler.{cache_key_of}
use mcp_webtools.Search.{Hit, SearchError, Instance, Searcher, search}

pub record SearchInput : Type 0 where
  pub query : Bytes
  pub limit : ℤ

unfoldable pub handler :
    ℕ
    → ℕ
    → Instance
    → Option Bytes
    → SearchInput
    → Searcher
    → Outcome SearchError (List Hit) × Searcher
handler now done i actor given s = search s now done given.query given.limit (cache_key_of actor) i
