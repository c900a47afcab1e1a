-- ===== src/RequestTests.antt =====
-- Requests of the fetch tool that run at the same time.
use mcp_webtools.Prelude.{
  ℕ, zero, suc, ◌≤◌, refl, true, false, Option, none, some, [], ◌∷◌, arith, if◌then◌else◌, pos,
  negsuc, Bytes, codes, same, is_blank, bytes_discrete,
}
use mcp_webtools.Keys.Decimal.{HasNoNul}
use mcp_webtools.Cache.Table.{lookup, remove}
use mcp_webtools.Cache.Memory
use mcp_webtools.Cache.Memory.Order.{erase}
use mcp_webtools.Utf8.{
  in_range, is_continuation, is_rune2, is_rune3, is_rune4, is_second3, is_second4, ends2, ends3,
  ends4, ends_in_rune, cut_back, cut_to_utf8_boundary,
}
use mcp_webtools.Keys.{digits, format_int}
use mcp_webtools.Fetch.Page.{page_from}
use mcp_webtools.Fetch.Stream.{
  page_from_stream, capture_rest, body_ended, read_full, read_all, copy_n, read_page, read_chunk,
}
use mcp_webtools.Fetch.Fetcher
use mcp_webtools.Fetch.Fetcher.{
  Url, Origin, Result, FetchError, Fetcher, page_result, snap_key_of, result_key_of, check, is_http,
  fetch, store_result,
}
use mcp_webtools.Fetch.Fetcher.Captured.{answered}
use mcp_webtools.Fetch.Requests.{
  FetchCall, starting, System, step, run, Reach, start, later, proceed,
}
use mcp_webtools.Fetch.Requests.Sources.{Sourced}
use mcp_webtools.Fetch.Requests.Reached.{Reach-Sourced}
use mcp_webtools.Cache.Memory.Charged.{held_bytes}
use mcp_webtools.Fetch.Requests.Budget.{body_bytes, content_bytes, Reach-held_bytes}
use mcp_webtools.Search
use mcp_webtools.Search.{Hit, Instance, trim_slash, key_of, query_instance, normal_limit}
use mcp_webtools.Search.Requests
use mcp_webtools.Search.Requests.{SearchCall}
use mcp_webtools.Search.Requests.Sources.{Answered}
use mcp_webtools.Search.Requests.Reached.{Reach-Answered}

program : Unit {0}
unfolding lookup remove Memory.new Memory.get Memory.put Memory.delete_locked Memory.expired
    Memory.evict Memory.insert Memory.over_budget is_continuation in_range is_rune2 is_rune3
    is_rune4 is_second3 is_second4 ends2 ends3 ends4 ends_in_rune cut_back cut_to_utf8_boundary
    page_from page_from_stream capture_rest body_ended read_full read_all copy_n read_page
    read_chunk Fetcher.new check is_http same is_blank bytes_discrete erase snap_key_of
    result_key_of format_int digits proceed store_result page_result
program = tt

search_program : Unit {0}
unfolding program Search.new trim_slash key_of query_instance normal_limit Search.store
    Search.size_of Requests.proceed
search_program = tt

abbrev address : Bytes
address = codes "http://x/"

abbrev page_url : Url
page_url = record { scheme = codes "http"; redacted = address }

abbrev parse : Bytes → Option Url
parse s = if same s address then some page_url else none

abbrev serving : Origin
serving = record {
  answer = λ u. some (answered 200 (codes "text/plain") (negsuc 0) (codes "abcdef"));
  in_time = true;
}

abbrev down : Origin
down = record { answer = λ u. none; in_time = false }

-- The first request of an agent meets its origin; the others ask for the second page, and would meet
-- none.
abbrev calls : ℕ → FetchCall
calls zero = record { raw_url = address; offset = pos 0; cache_key = codes "a"; origin = serving }
calls (suc i) = record { raw_url = address; offset = pos 4; cache_key = codes "a"; origin = down }

plain : (i : ℕ) → HasNoNul (calls i).cache_key
plain zero = (omega arith, tt)
plain (suc i) = (omega arith, tt)

-- Pages of four bytes, caches of eight.
abbrev tiny : Fetcher
tiny = Fetcher.new (pos 1) (pos 4) (pos 8) (pos 0)

abbrev next : ℕ → ℕ → System → System
next = step parse calls

-- Both look for a result; the first request goes on to the end, and then the second.
abbrev sixth : System
sixth = next 1 6 (
    next 0 5
      (next 0 4 (next 0 3 (next 1 2 (next 0 1 (record { fetcher = tiny; pc = λ i. starting }))))))

abbrev reached : Reach parse calls tiny sixth
reached =
    later
      (later
        (later (later (later (later (start refl) (run 0 1 refl)) (run 1 2 refl)) (run 0 3 refl))
          (run 0 4 refl))
        (run 0 5 refl))
      (run 1 6 refl)

abbrev second_page : Result
second_page = record {
  url = address;
  status_code = 200;
  content_type = codes "text/plain";
  offset = 4;
  content = codes "ef";
  bytes = 2;
  truncated = false;
  next_offset = 0;
}

Reach-Sourced_example : Sourced parse calls 1 second_page
unfolding program
Reach-Sourced_example =
    Reach-Sourced parse calls (pos 1) (pos 4) (pos 8) (pos 0) 1 second_page plain reached refl

-- Two searches of one agent; the instance of the second is down.
abbrev hit : Hit
hit = record { title = codes "Go"; url = codes "https://go.dev"; content = [] }

abbrev searxng : Instance
searxng = record {
  endpoint_parses = true;
  request_builds = true;
  answer = λ q. some (record { status_code = 200; payload = some (hit ∷ hit ∷ hit ∷ []) });
}

abbrev searches : ℕ → SearchCall
searches zero = record {
  query = codes "go";
  limit = pos 2;
  cache_key = codes "a";
  instance_of = searxng;
}
searches (suc i) = record {
  query = codes "go";
  limit = pos 2;
  cache_key = codes "a";
  instance_of = record { endpoint_parses = true; request_builds = true; answer = λ q. none };
}

named : (i : ℕ) → HasNoNul (searches i).cache_key
named zero = (omega arith, tt)
named (suc i) = (omega arith, tt)

abbrev then_step : ℕ → ℕ → Requests.System → Requests.System
then_step = Requests.step searches

abbrev fourth : Requests.System
fourth = then_step 1 4 (
    then_step 0 3 (
      then_step 0 2 (
        then_step 0 1 (record {
          searcher = Search.new (codes "http://s/") (pos 0) (pos 0);
          pc = λ i. Requests.starting;
        }))))

Reach-Answered_example : Answered searches 1 (hit ∷ hit ∷ [])
unfolding search_program
Reach-Answered_example =
    Reach-Answered searches (codes "http://s/") (pos 0) (pos 0) {s = fourth} 1 (hit ∷ hit ∷ [])
      named
      (Requests.later
        (Requests.later
          (Requests.later (Requests.later (Requests.start refl) (Requests.run 0 1 refl))
            (Requests.run 0 2 refl))
          (Requests.run 0 3 refl))
        (Requests.run 1 4 refl))
      refl

Reach-held_bytes_example :
    (held_bytes body_bytes sixth.fetcher.snapshots ≤ 8)
    × (held_bytes content_bytes sixth.fetcher.results ≤ 8)
unfolding program
Reach-held_bytes_example = Reach-held_bytes parse calls (pos 1) (pos 4) (pos 8) (pos 0) reached
