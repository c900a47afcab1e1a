-- ===== src/Search.antt =====
-- internal/tools/search/search.go: the tool that queries a SearXNG instance. The instance and the
-- HTTP client before it are a parameter, what one query meets.
pub mod Limits
pub mod Runs
pub mod Kept
pub mod Isolated
pub mod Handler
pub mod Requests
use mcp_webtools.Prelude.{
  Outcome, ok, err, ℕ, ◌+◌, Bool, not, Option, none, some, List, [], ◌∷◌, ltb, ◌==◌, if◌then◌else◌,
  length, take, ℤ, pos, pos_part, ltb_ℤ, leb_ℤ, Bytes, is_empty, is_blank,
}
use mcp_webtools.Cache.Memory
use mcp_webtools.Cache.Memory.{MemoryCache, default_ttl}
use mcp_webtools.Keys.{join, format_int}

pub record Hit : Type 0 where
  pub title : Bytes
  pub url : Bytes
  pub content : Bytes

pub data SearchError : Type 0 where
  empty_query bad_endpoint bad_request no_answer json_disabled bad_payload : SearchError
  bad_status : ℕ → SearchError

-- `payload` is `none` where the body is no JSON of the expected form. A nil slice is the empty list.
pub record Reply : Type 0 where
  pub status_code : ℕ
  pub payload : Option (List Hit)

-- url.Parse of the endpoint, building the request, and sending it.
pub record Instance : Type 0 where
  pub endpoint_parses : Bool
  pub request_builds : Bool
  pub answer : Bytes → Option Reply

pub record Searcher : Type 0 where
  pub base_url : Bytes
  pub timeout : ℤ
  pub results : MemoryCache (List Hit)

abbrev pub default_timeout : ℤ
default_timeout = pos 10_000_000_000

abbrev pub default_max_results : ℤ
default_max_results = pos 10

abbrev pub max_results_limit : ℤ
max_results_limit = pos 50

abbrev pub default_results_cache_bytes : ℤ
default_results_cache_bytes = pos 1_048_576

-- strings.TrimSuffix(s, "/")
unfoldable pub trim_slash : Bytes → Bytes
trim_slash [] = []
trim_slash (c ∷ []) = if c == b'/' then [] else c ∷ []
trim_slash (c ∷ d ∷ s) = c ∷ trim_slash (d ∷ s)

unfoldable pub new : Bytes → ℤ → ℤ → Searcher
unfolding trim_slash
new base_url timeout ttl = record {
  base_url = trim_slash base_url;
  timeout = if leb_ℤ timeout (pos 0) then default_timeout else timeout;
  results = Memory.new default_results_cache_bytes (if leb_ℤ ttl (pos 0) then default_ttl else ttl);
}

unfoldable pub normal_limit : ℤ → ℤ
normal_limit limit =
    let wanted = if leb_ℤ limit (pos 0) then default_max_results else limit in
    if ltb_ℤ max_results_limit wanted then max_results_limit else wanted

unfoldable pub key_of : Bytes → Bytes → ℕ → Bytes
key_of cache_key query limit =
    if is_empty cache_key then [] else join (join cache_key query) (format_int limit)

unfoldable pub size_of : List Hit → ℕ
size_of [] = 0
size_of (h ∷ hits) = length h.title + length h.url + length h.content + size_of hits

-- From the endpoint to the decoded hits, no more than the limit.
unfoldable pub query_instance : Instance → Bytes → ℕ → Outcome SearchError (List Hit)
query_instance i query limit =
    if not i.endpoint_parses
    then err bad_endpoint
    else if not i.request_builds
    then err bad_request
    else elim (i.answer query) [
      | none ↦ err no_answer
      | some reply ↦
          if not (reply.status_code == 200)
          then (if reply.status_code == 403
              then err json_disabled
              else err (bad_status reply.status_code))
          else elim reply.payload [
            | none ↦ err bad_payload
            | some hits ↦ ok (if ltb limit (length hits) then take limit hits else hits)
          ]
    ]

unfoldable pub store : Searcher → ℕ → Bytes → List Hit → Searcher
store s done key hits =
    if is_empty key
    then s
    else record s { results = Memory.put key hits (size_of hits) done s.results }

-- The cache, then the instance, for a limit that is settled.
unfoldable pub search_cached :
    Searcher → ℕ → ℕ → Bytes → ℕ → Bytes → Instance → Outcome SearchError (List Hit) × Searcher
search_cached s now done query limit key i =
    let (results, hit) = if is_empty key then (s.results, none) else Memory.get key now s.results in
    let s1 = record s { results = results } in
    elim hit [
      | some hits ↦ (ok hits, s1)
      | none ↦ elim (query_instance i query limit) [
        | err e ↦ (err e, s1)
        | ok hits ↦ (ok hits, store s1 done key hits)
      ]
    ]

unfoldable pub search :
    Searcher → ℕ → ℕ → Bytes → ℤ → Bytes → Instance → Outcome SearchError (List Hit) × Searcher
unfolding normal_limit
search s now done query limit cache_key i =
    if is_blank query
    then (err empty_query, s)
    else let n = pos_part (normal_limit limit) in
      search_cached s now done query n (key_of cache_key query n) i
