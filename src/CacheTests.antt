-- ===== src/CacheTests.antt =====
-- Runs of the cache: a few entries, evictions and expiry.
use mcp_webtools.Prelude.{
  ℕ, ◌+◌, ◌≡◌, refl, ◌&&◌, ◌||◌, none, some, List, [], ◌∷◌, ltb, if◌then◌else◌, length, pos, sub_ℕ,
  ltb_ℤ, Bytes, codes, same, is_blank, bytes_discrete, ◌≤◌, ◌<◌, false, ◌++◌, arith, same_refl,
  is_empty,
}
use mcp_webtools.Cache.Database.{CacheRow, Statements, DatabaseCache, evict_rows}
use mcp_webtools.Cache.Database.Evict.{Evicts}
use mcp_webtools.Cache.Table.{lookup, remove, total}
use mcp_webtools.Cache.Memory
use mcp_webtools.Cache.Memory.{MemoryCache, Entry}
use mcp_webtools.Cache.Memory.Order.{erase}
use mcp_webtools.Cache.Memory.Invariant.{
  IsValid, new-IsValid, put-IsValid, Op, getting, putting, expiring, step, run, run-IsValid,
}
use mcp_webtools.Cache.Memory.Reads.{LeastRecentGone, put-LeastRecentGone, get-put}
use mcp_webtools.Utf8.{
  in_range, is_continuation, is_rune2, is_rune3, is_rune4, is_second3, is_second4, ends2, ends3,
  ends4, ends_in_rune, cut_back, cut_to_utf8_boundary,
}
use mcp_webtools.Keys.{digits, format_int}
use mcp_webtools.Fetch.Page.{page_from}
use mcp_webtools.Fetch.Page.Reading.{read_pages}
use mcp_webtools.Fetch.Stream.{
  page_from_stream, capture_rest, body_ended, read_full, read_all, copy_n, read_page, read_chunk,
}
use mcp_webtools.Fetch.Fetcher
use mcp_webtools.Fetch.Fetcher.{
  Url, Response, Origin, Result, FetchError, Fetcher, page_result, snap_key_of, result_key_of,
  check, is_http, fetch,
}
use mcp_webtools.Search.{trim_slash, query_instance}

program : Unit {0}
unfolding lookup remove total Memory.new Memory.get Memory.put Memory.delete_locked Memory.expired
    Memory.evict Memory.insert Memory.over_budget Memory.len step run is_continuation in_range
    is_rune2 is_rune3 is_rune4 is_second3 is_second4 ends2 ends3 ends4 ends_in_rune cut_back
    cut_to_utf8_boundary page_from read_pages page_from_stream capture_rest body_ended read_full
    read_all copy_n read_page read_chunk Fetcher.new check is_http same is_blank bytes_discrete
    erase query_instance snap_key_of result_key_of format_int digits trim_slash
program = tt

-- A cache of ten bytes, with a time to live of sixty seconds.
abbrev ten : MemoryCache ℕ
ten = Memory.new (pos 10) (pos 60_000_000_000)

abbrev ten-IsValid : IsValid ten
ten-IsValid = new-IsValid (pos 10) (pos 60_000_000_000)

abbrev a : Bytes
a = codes "a"

abbrev b : Bytes
b = codes "b"

abbrev with_a : MemoryCache ℕ
with_a = Memory.put a 7 4 1 ten

abbrev with_a-IsValid : IsValid with_a
with_a-IsValid = put-IsValid a 7 4 1 ten ten-IsValid

abbrev ops : List (Op ℕ)
ops =
    putting a 7 4 1
    ∷ putting b 8 5 2
    ∷ getting a 3
    ∷ putting (codes "c") 9 6 4
    ∷ expiring 5
    ∷ getting b 6
    ∷ []

-- The third entry evicts the second, which was not read since.
evicts :
    (run ten
      (putting a 7 4 1 ∷ putting b 8 5 2 ∷ getting a 3 ∷ putting (codes "c") 9 6 4 ∷ [])).order
    ≡ codes "c" ∷ a ∷ []
unfolding program
evicts = refl

run-IsValid_example :
    IsValid (run ten ops) × (Memory.len (run ten ops) ≡ length (run ten ops).order)
run-IsValid_example = run-IsValid ten ops ten-IsValid

get-put_example : (Memory.get b 5 (Memory.put b 8 6 2 with_a)).1 ≡ (
    if ltb 10 6 || (ltb_ℤ (pos 0) with_a.ttl && ltb_ℤ with_a.ttl (sub_ℕ 5 2)) then none else some 8)
unfolding program
get-put_example = get-put b 8 6 2 with_a with_a-IsValid refl 5

put-LeastRecentGone_example : LeastRecentGone b 8 9 2 with_a (Memory.put b 8 9 2 with_a)
put-LeastRecentGone_example = put-LeastRecentGone b 8 9 2 with_a with_a-IsValid

abbrev cache_row : Bytes → ℕ → CacheRow
cache_row key size = record {
  key = key;
  value = [];
  size = size;
  expires_at = 9;
  last_accessed_at = 1;
}

abbrev sizes_of : List CacheRow → ℕ
sizes_of [] = 0
sizes_of (r ∷ rows) = r.size + sizes_of rows

abbrev oldest_of : List CacheRow → Bytes
oldest_of [] = []
oldest_of (r ∷ rows) = r.key

unfoldable without : Bytes → List CacheRow → List CacheRow
without k [] = []
without k (r ∷ rows) = let rest = without k rows in if same r.key k then rest else r ∷ rest

-- The rows, in the order of their last access.
abbrev statements : (Bytes → List CacheRow → List CacheRow) → Statements (List CacheRow)
statements delete = record {
  first = λ key now db. none;
  touch = λ key now db. db;
  save = λ row db. db ++ row ∷ [];
  sum_size = sizes_of;
  oldest = oldest_of;
  delete = delete;
  count = length;
  expire = λ now db. db;
}

length-without : (k : Bytes) (rows : List CacheRow) → length (without k rows) ≤ length rows
unfolding without
length-without k [] = omega arith
length-without k (r ∷ rows) = ground (arith, length-without k rows)

fewer :
    (rows : List CacheRow)
    → is_empty (oldest_of rows) ≡ false
    → length (without (oldest_of rows) rows) < length rows
unfolding without
fewer [] h = cc
fewer (r ∷ rows) h = ground (arith, length-without r.key rows, same_refl r.key)

statements-Evicts : Evicts (statements without) (λ db. db)
statements-Evicts = record { deletes = fewer }

abbrev two_rows : List CacheRow
two_rows = cache_row (codes "a") 3 ∷ cache_row (codes "b") 4 ∷ []

abbrev database : (Bytes → List CacheRow → List CacheRow) → DatabaseCache (List CacheRow)
database delete = record { statements = statements delete; max_bytes = pos 5; ttl = pos 1 }

evicts_one : evict_rows (database without) 3 two_rows ≡ cache_row (codes "b") 4 ∷ []
unfolding evict_rows without same
evicts_one = refl
