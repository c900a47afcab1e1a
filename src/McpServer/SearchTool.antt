-- ===== src/McpServer/SearchTool.antt =====
-- internal/tools/search/registrar.go: a call of the search tool on the MCP surface.
use mcp_webtools.Prelude.{
  Outcome, ok, err, ℕ, Bool, ◌≤◌, ◌≡◌, ap, subst, Option, some, List, [], ◌∷◌, arith, length,
  pos_part, Bytes, codes,
}
use mcp_webtools.Auth.{Challenge, require_bearer}
use mcp_webtools.Auth.Bearer.{require_bearer_keeps, require_bearer-admits}
use mcp_webtools.Recorder.{ToolCall, recorded, registered}
use mcp_webtools.Search.{Hit, SearchError, Instance, Searcher, normal_limit}
use mcp_webtools.Search.Handler.{SearchInput, handler}
use mcp_webtools.Search.Kept.{IsBounded, Within, search-IsBounded}
use mcp_webtools.Storage.{StorageError}
use mcp_webtools.Storage.Agents.{Actor, Accounts, authenticate_agent_token}

-- What a call brings, and what the world gives it.
pub record SearchRequest : Type 0 where
  pub header : Bytes
  pub given : SearchInput
  pub now : ℕ
  pub done : ℕ
  pub elapsed : ℕ
  pub instance_answers : Instance

-- The parts that `Register` and `Handler` put together. `error_text` is the text of an error.
pub record SearchServer (Db : Type 0) : Type 0 where
  pub accounts : Accounts Db
  pub hash_token : Bytes → Bytes
  pub has_db : Bool
  pub insert : ToolCall → Db → Option Db
  pub encode_in : SearchInput → Bytes
  pub encode_out : List Hit → Bytes
  pub encode_error : Bytes → Bytes
  pub error_text : SearchError → Bytes

module _ {Db : Type 0} (m : SearchServer Db) where
  abbrev pub with_search_text : Outcome SearchError (List Hit) → Outcome Bytes (List Hit)
  with_search_text (ok hits) = ok hits
  with_search_text (err e) = err (m.error_text e)

  abbrev pub search_tool :
      SearchRequest → Option Bytes → SearchInput → Searcher → Outcome Bytes (List Hit) × Searcher
  search_tool r actor given s =
      let (hits, next) = handler r.now r.done r.instance_answers actor given s in
      (with_search_text hits, next)

  unfoldable pub call_search :
      SearchRequest → Actor → Searcher × Db → Outcome Bytes (List Hit) × (Searcher × Db)
  call_search r actor (s, db) =
      recorded m.encode_in m.encode_out m.encode_error (registered m.has_db m.insert)
        (codes "search") (search_tool r) (some actor.id) r.given r.elapsed s db

  abbrev pub authenticate_search :
      ℕ → Bytes → Searcher × Db → Outcome StorageError Actor × (Searcher × Db)
  authenticate_search now token (s, db) =
      let (found, next) = authenticate_agent_token m.accounts m.hash_token now token db in
      (found, (s, next))

  unfoldable pub serve_search :
      SearchRequest → Searcher × Db → Outcome Challenge (Outcome Bytes (List Hit)) × (Searcher × Db)
  serve_search r = require_bearer (authenticate_search r.now) (call_search r) r.header

  -- Requests one after another, whoever sends them.
  abbrev pub serve_searches : List SearchRequest → Searcher × Db → Searcher × Db
  serve_searches [] state = state
  serve_searches (r ∷ requests) state = serve_searches requests (serve_search r state).1

  serve_search-IsBounded :
      (r : SearchRequest) (state : Searcher × Db)
      → IsBounded state.0
      → IsBounded (serve_search r state).1.0
  unfolding serve_search call_search recorded handler
  serve_search-IsBounded r state h =
      require_bearer_keeps (authenticate_search r.now) (call_search r) (λ x. IsBounded x.0) r.header
        state (λ token x b. b)
        (λ actor x b.
          (search-IsBounded x.0 r.now r.done r.given.query r.given.limit actor.id r.instance_answers
            b).0)
        h

  pub serve_searches-IsBounded :
      (requests : List SearchRequest) (state : Searcher × Db)
      → IsBounded state.0
      → IsBounded (serve_searches requests state).0
  serve_searches-IsBounded [] state h = h
  serve_searches-IsBounded (r ∷ requests) state h =
      serve_searches-IsBounded requests (serve_search r state).1 (serve_search-IsBounded r state h)

  length-with_search_text :
      (n : ℕ) (o : Outcome SearchError (List Hit)) (hits : List Hit)
      → Within n o
      → with_search_text o ≡ ok hits
      → length hits ≤ n
  length-with_search_text n (ok found) hits h e =
      let same_hits : found ≡ hits = ground arith in subst (λ l. length l ≤ n) same_hits h
  length-with_search_text n (err x) hits h e = cc

  -- After any sequence of calls of the search tool, whoever sends them, on a searcher whose cached
  -- answers are within the limits of their keys, a call that is answered with hits, from the cache
  -- or by the instance, has no more of them than its limit brought into its range.
  pub length-serve_search :
      (requests : List SearchRequest) (r : SearchRequest) (state after : Searcher × Db)
      (hits : List Hit)
      → IsBounded state.0
      → serve_search r (serve_searches requests state) ≡ (ok (ok hits), after)
      → length hits ≤ pos_part (normal_limit r.given.limit)
  unfolding serve_search call_search recorded handler
  length-serve_search requests r state after hits h answered =
      let before = serve_searches requests state in
      let b = serve_searches-IsBounded requests state h in
      let (token, actor, named, filled, good, ran) =
        require_bearer-admits (authenticate_search r.now) (call_search r) r.header before after
          (ok hits) answered in
      length-with_search_text (pos_part (normal_limit r.given.limit)) _ hits
        (search-IsBounded before.0 r.now r.done r.given.query r.given.limit actor.id
          r.instance_answers b).1
        (ap (λ (x : Outcome Bytes (List Hit) × (Searcher × Db)). x.0) ran)
