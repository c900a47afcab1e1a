-- ===== src/Tests.antt =====
-- Runs of the tools and the recorder: small documents, requests and caches.
use mcp_webtools.Prelude.{
  ok, suc, ◌≡◌, refl, ◌⊎◌, true, false, Option, none, some, [], ◌∷◌, arith, if◌then◌else◌, length,
  take, pos, negsuc, Bytes, codes, same, is_blank, bytes_discrete,
}
use mcp_webtools.Cache.Table.{lookup, remove, total}
use mcp_webtools.Cache.Memory
use mcp_webtools.Cache.Memory.{MemoryCache, Entry}
use mcp_webtools.Cache.Memory.Order.{erase}
use mcp_webtools.Cache.Memory.Invariant.{step, run}
use mcp_webtools.Utf8.{
  in_range, is_continuation, is_rune2, is_rune3, is_rune4, is_second3, is_second4, ends2, ends3,
  ends4, ends_in_rune, cut_back, cut_to_utf8_boundary,
}
use mcp_webtools.Utf8.Valid.{IsUtf8, empty, one, two}
use mcp_webtools.Keys.{digits, format_int}
use mcp_webtools.Fetch.Page.{page_from}
use mcp_webtools.Fetch.Page.Reading.{read_pages, read_pages-document, read_pages-stuck}
use mcp_webtools.Fetch.Stream.{
  page_from_stream, capture_rest, body_ended, read_full, read_all, copy_n, read_page, read_chunk,
}
use mcp_webtools.Fetch.Stream.Match.{live, cut_page, page_from_stream-page_from}
use mcp_webtools.Fetch.Fetcher
use mcp_webtools.Fetch.Fetcher.{
  Url, Response, Origin, Result, FetchError, Fetcher, page_result, snap_key_of, result_key_of,
  check, is_http, fetch,
}
use mcp_webtools.Fetch.Fetcher.Safety.{IsWell, fetch-isolates, new-IsWell}
use mcp_webtools.Fetch.Fetcher.Captured.{answered}
use mcp_webtools.Fetch.Fetcher.Snapshots.{FirstFetch, fetch-snapshot, fetch-snapshot_short}
use mcp_webtools.Search
use mcp_webtools.Search.{
  Hit, SearchError, Instance, Searcher, trim_slash, key_of, query_instance, normal_limit, search,
}

program : Unit {0}
unfolding lookup remove total Memory.new Memory.get Memory.put Memory.delete_locked Memory.expired
    Memory.evict Memory.insert Memory.over_budget Memory.len step run is_continuation in_range
    is_rune2 is_rune3 is_rune4 is_second3 is_second4 ends2 ends3 ends4 ends_in_rune cut_back
    cut_to_utf8_boundary page_from read_pages page_from_stream capture_rest body_ended read_full
    read_all copy_n read_page read_chunk Fetcher.new check is_http same is_blank bytes_discrete
    erase query_instance snap_key_of result_key_of format_int digits trim_slash
program = tt

abbrev a : Bytes
a = codes "a"

abbrev b : Bytes
b = codes "b"

-- "naïve", of six bytes.
abbrev naive : Bytes
naive = 110 ∷ 97 ∷ 195 ∷ 175 ∷ 118 ∷ 101 ∷ []

abbrev naive_text : IsUtf8 naive
unfolding program
naive_text =
    one (omega arith) (one (omega arith) (two refl (one (omega arith) (one (omega arith) empty))))

-- The cut leaves the broken rune out.
cuts : cut_to_utf8_boundary (take 3 naive) ≡ 110 ∷ 97 ∷ []
unfolding program
cuts = refl

read_pages-document_example : read_pages (suc (length naive)) naive 0 4 ≡ some naive
read_pages-document_example = read_pages-document naive 4 naive_text (omega arith)

-- A last page that ends inside a rune.
page_from_stream-page_from_example :
    page_from_stream (live (110 ∷ 195 ∷ [])) 4 0 ≡ some (cut_page (page_from (110 ∷ 195 ∷ []) 0 4))
page_from_stream-page_from_example = page_from_stream-page_from (110 ∷ 195 ∷ []) 4 0

drops_byte :
    (page_from_stream (live (110 ∷ 195 ∷ [])) 4 0
      ≡ some (record { content = 110 ∷ []; truncated = false; next_offset = 0 }))
    × (page_from (110 ∷ 195 ∷ []) 0 4
        ≡ record { content = 110 ∷ 195 ∷ []; truncated = false; next_offset = 0 })
unfolding program
drops_byte = (refl, refl)

abbrev binary : Bytes
binary = 128 ∷ 129 ∷ 130 ∷ 131 ∷ 132 ∷ []

read_pages-stuck_example : read_pages 100 binary 0 4 ≡ none
unfolding program
read_pages-stuck_example =
    read_pages-stuck 100 binary 0 4 (omega arith) (refl, (refl, (refl, (refl, tt))))

-- Pages of four bytes, caches of eight.
abbrev tiny : Fetcher
tiny = Fetcher.new (pos 1) (pos 4) (pos 8) (pos 0)

abbrev tiny-IsWell : IsWell tiny
tiny-IsWell = new-IsWell (pos 1) (pos 4) (pos 8) (pos 0)

abbrev page_url : Url
page_url = record { scheme = codes "http"; redacted = codes "http://x/" }

abbrev parse_x : Bytes → Option Url
parse_x s = if same s (codes "http://x/") then some page_url else none

-- The origin of a document of unknown length.
abbrev serving : Bytes → Origin
serving body = record {
  answer = λ u. some (answered 200 (codes "text/plain") (negsuc 0) body);
  in_time = true;
}

abbrev down : Origin
down = record { answer = λ u. none; in_time = false }

fetch-isolates_example :
    let after = (fetch parse_x tiny 1 2 (codes "http://x/") (pos 0) a (serving naive)).1 in
    let sk = snap_key_of b (codes "http://x/") in
    let rk = result_key_of b (codes "http://x/") 4 in
    ((lookup sk after.snapshots.items ≡ none)
      ⊎ (lookup sk after.snapshots.items ≡ lookup sk tiny.snapshots.items))
    × ((lookup rk after.results.items ≡ none)
        ⊎ (lookup rk after.results.items ≡ lookup rk tiny.results.items))
fetch-isolates_example =
    fetch-isolates parse_x tiny 1 2 (codes "http://x/") (pos 0) a (serving naive) tiny-IsWell b
      (λ e. ground arith) refl (omega arith, tt) (omega arith, tt) (codes "http://x/") 4

abbrev tiny_first :
    (body : Bytes)
    → FirstFetch parse_x tiny
        (codes "http://x/")
        a
        page_url
        (serving body)
        200
        (codes "text/plain")
        (negsuc 0)
        body
unfolding program
tiny_first body = record {
  well = tiny-IsWell;
  named = refl;
  accepted = refl;
  no_snapshot = refl;
  no_result = λ n. refl;
  answers = refl;
  on_time = refl;
  good = (omega arith, omega arith);
  sized = refl;
}

-- The origin is down by the time of the second fetch.
fetch-snapshot_example :
    let first = fetch parse_x tiny 1 2 (codes "http://x/") (pos 0) a (serving naive) in
    let later = fetch parse_x first.1 3 4 (codes "http://x/") (pos 4) a down in
    (first.0 ≡ ok (page_result tiny page_url 200 (codes "text/plain") naive 0))
    × (later.0 ≡ ok (page_result tiny page_url 200 (codes "text/plain") naive 4))
unfolding program
fetch-snapshot_example =
    fetch-snapshot parse_x tiny (codes "http://x/") a page_url (serving naive) 200
      (codes "text/plain") (negsuc 0) naive (tiny_first naive) 1 2 3 4 4 down refl (omega arith)

abbrev nine : Bytes
nine = codes "ninebytes"

fetch-snapshot_short_example :
    let first = fetch parse_x tiny 1 2 (codes "http://x/") (pos 0) a (serving nine) in
    let later = fetch parse_x first.1 3 4 (codes "http://x/") (pos 4) a down in
    (first.0 ≡ ok (page_result tiny page_url 200 (codes "text/plain") (codes "ninebyte") 0))
    × (later.0 ≡ ok (page_result tiny page_url 200 (codes "text/plain") (codes "ninebyte") 4))
unfolding program
fetch-snapshot_short_example =
    fetch-snapshot_short parse_x tiny (codes "http://x/") a page_url (serving nine) 200
      (codes "text/plain") (negsuc 0) nine (tiny_first nine) 1 2 3 4 4 down refl refl (omega arith)

abbrev searcher : Searcher
searcher = Search.new (codes "http://searx/") (pos 0) (pos 0)

abbrev hit : Hit
hit = record { title = codes "Go"; url = codes "https://go.dev"; content = [] }

abbrev searxng : Instance
searxng = record {
  endpoint_parses = true;
  request_builds = true;
  answer = λ q. some (record { status_code = 200; payload = some (hit ∷ hit ∷ hit ∷ []) });
}

-- The instance answers with three hits.
search-run : (search searcher 1 2 (codes "go") (pos 2) a searxng).0 ≡ ok (hit ∷ hit ∷ [])
unfolding program search Search.search_cached Search.store Search.new Search.key_of
search-run = refl
