-- ===== src/Lib.antt =====
-- mcp-webtools: an MCP server that gives agents two web tools, fetch and search, and keeps a
-- history of their calls (Go).
--
-- A request of an agent passes the bearer check (Auth), reaches a tool's handler (Fetch/Handler,
-- Search/Handler) inside the recorder (Recorder), and runs on the tool's state, which is a cache or
-- two (Cache); McpServer puts these together. Humans log in (HumanAuth/Session), which gives
-- them an actor (Storage/Humans), and read the history (Storage/History) and manage agents
-- (Storage/Agents) through the REST API (RestApi), behind the role check (HumanAuth). Startup is the
-- process around them. Each file says which code it models:
--   Cache/Memory     internal/cache/cache.go, `memoryCache`: `get`, `put`, `evict`, `delete_locked`
--   Cache/Memory/Lru its abstract view, which Cache/Memory/Refines relates to it
--   Cache/Database   `databaseCache` of the same file, which the program never makes
--   Utf8             `cutToUTF8Boundary` of internal/tools/fetch/fetch.go, over unicode/utf8
--   Keys             the cache keys of the two tools: parts joined by NUL, numbers in decimal
--   Fetch/Page       `pageFrom`, a page of a document in memory
--   Fetch/Stream     `readChunk`, `pageFromStream`, `captureRest`, `bodyEnded`
--   Fetch/Fetcher    `New`, `Fetch`, `captureAndPage`, `storeResult`
--   Fetch/Requests   `Fetch` again, as steps of requests that run at the same time
--   Fetch/Handler    internal/tools/fetch/handler.go
--   Search           internal/tools/search/search.go, and Search/Handler its handler.go;
--                    Search/Requests has `Search` as steps of requests too
--   Recorder         internal/recorder/recorder.go
--   Storage/History  internal/storage/history_repo.go
--   Storage/Agents   internal/storage/actor_repo.go
--   Storage/Humans   internal/storage/human_repo.go
--   Storage/Schema   internal/storage/db.go and `withMigrationLock` of db_postgres.go, and
--                    Storage/Sqlite db_sqlite.go
--   Auth             internal/auth/auth.go
--   McpServer        internal/mcpserver/server.go, internal/tools/fetch/registrar.go, and
--                    McpServer/SearchTool internal/tools/search/registrar.go; McpServer/Listed
--                    joins a call to the listing of history
--   HumanAuth        internal/humanauth/middleware.go and the routes of internal/restapi/router.go
--   HumanAuth/Crypto internal/humanauth/crypto.go
--   HumanAuth/Session internal/humanauth/oidc_provider.go, oidc_handlers.go: `authenticate`,
--                    `login`, `callback`, `logout`; HumanAuth/Session/Admins puts them before the
--                    middleware, and Startup/Oidc has `NewOIDCHandlers`
--   RestApi          internal/restapi: agents.go, history.go, me.go, json.go
--   Startup          cmd/webtools/main.go: Startup/Flags `newRootCommand`, Startup/Config and
--                    Startup/App `buildAppHandler`, Startup/Retry `retryOpenUntilReady`,
--                    Startup/Degraded `serveReady` and `serveDegradedUntilReady`,
--                    Startup/App/Process what `serveReady` starts with,
--                    Startup/Pruning `pruneHistoryUntilDone`
--   HttpClient       internal/httpclient/httpclient.go
--   Health           internal/health/health.go
-- Prelude holds what they share; the files below a component hold its lemmas and theorems; the
-- modules whose names end in Tests hold runs at concrete inputs.
--
-- Strings are lists of bytes, sizes and offsets natural numbers, durations and signed parameters
-- integers; sums of sizes are taken to stay below 2^63. A method takes the state and returns it
-- anew: the mutex of a cache makes each of its calls one step. A fetch or a search is one step in
-- Fetch/Fetcher and Search, and in Fetch/Requests and Search/Requests a chain of steps between which
-- others may run: each of its uses of a cache, and its GET. Clocks are arguments. A request to an origin or to the search instance is an
-- argument too: what it would meet. The database is a record of the SQL statements that the code
-- runs; the theorems that need more say what SQL says of them (`Holds`, `Keeps`, `Inserts`,
-- `Links`, `Records`, `Deletes`, `Updates`, `Upserts`). Requests for a human's actor do interleave: there each
-- statement is a step. The degraded listener is a machine over the
-- events of its goroutines. Keycloak, the cipher and the hashes are parameters.
--
-- Fuel: `evict` gets one round for each key of the recency list and one more, each round takes one
-- key away; `evict_rows` gets one for each row and one more, where the DELETE works; `read_pages`
-- and `read_history` are readers that follow a cursor, and their theorems give the number of
-- rounds.
--
-- Not modelled: the drivers of the database and AutoMigrate, the discovery of the OIDC issuer,
-- JSON, the parsing of the command line, how a listener shuts down, the HTTP transport, the MCP
-- protocol and the web interface. Error texts and log lines are left out where no theorem reads
-- them.
pub mod Prelude
pub mod Cache
pub mod Utf8
pub mod Keys
pub mod Fetch
pub mod Search
pub mod Recorder
pub mod Auth
pub mod Storage
pub mod Health
pub mod HttpClient
pub mod HumanAuth
pub mod Startup
pub mod RestApi
pub mod McpServer
pub mod CacheTests
pub mod Tests
pub mod RequestTests
pub mod ServiceTests
pub mod AccountTests
pub mod SessionTests
pub mod StartupTests
pub mod AppTests
pub mod SurfaceTests
pub mod ToolTests
pub mod HistoryTests
