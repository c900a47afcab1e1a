-- ===== src/Fetch/Fetcher.antt =====
-- `New`, `Fetch`, `captureAndPage`, `pageResult` and `storeResult` of internal/tools/fetch/fetch.go.
-- net/url and the HTTP client are parameters: `parse` is `url.Parse`, and an `Origin` is what one GET
-- meets, with the scheduling of the capture. `Fetch` reads the caches at `now` and stores at `done`.
mod Cases
pub mod Captured
pub mod Snapshots
pub mod Safety
use mcp_webtools.Prelude.{
  Outcome, ok, err, ℕ, ◌+◌, ◌-◌, Bool, true, false, not, ◌&&◌, ◌||◌, Option, none, some, [], ◌++◌,
  ltb, leb, ◌==◌, if◌then◌else◌, length, ℤ, pos, pos_part, ltb_ℤ, leb_ℤ, Bytes, codes, same,
  is_empty, is_blank,
}
use mcp_webtools.Cache.Memory
use mcp_webtools.Cache.Memory.{MemoryCache, default_ttl}
use mcp_webtools.Keys.{join, format_int}
use mcp_webtools.Fetch.Page.{Paged, page_from}
use mcp_webtools.Fetch.Stream.{Stream, skip, read_chunk, page_from_stream, capture_rest}

-- What the program uses of a parsed URL.
pub record Url : Type 0 where
  pub scheme : Bytes
  pub redacted : Bytes

pub record Response : Type 0 where
  pub status_code : ℕ
  pub content_type : Bytes
  pub content_length : ℤ
  pub body : Stream

-- `answer` is `none` where building or sending the request fails. `in_time` says whether a capture
-- that is tried ends before its timer fires.
pub record Origin : Type 0 where
  pub answer : Url → Option Response
  pub in_time : Bool

pub record Result : Type 0 where
  pub url : Bytes
  pub status_code : ℕ
  pub content_type : Bytes
  pub offset : ℕ
  pub content : Bytes
  pub bytes : ℕ
  pub truncated : Bool
  pub next_offset : ℕ

pub record DocEntry : Type 0 where
  pub body : Bytes
  pub status_code : ℕ
  pub content_type : Bytes

pub data FetchError : Type 0 where
  empty_url negative_offset bad_url bad_scheme no_answer read_failed : FetchError
  bad_status : ℕ → FetchError

pub record Fetcher : Type 0 where
  pub timeout : ℤ
  pub max_bytes : ℕ
  pub cache_budget : ℕ
  pub snapshots : MemoryCache DocEntry
  pub results : MemoryCache Result

abbrev pub default_timeout : ℤ
default_timeout = pos 15_000_000_000

abbrev pub default_max_bytes : ℤ
default_max_bytes = pos 65_536

abbrev pub default_cache_max_bytes : ℤ
default_cache_max_bytes = pos 33_554_432

-- A value that is not positive falls back to the default.
abbrev pub or_default : ℤ → ℤ → ℤ
or_default value default = if leb_ℤ value (pos 0) then default else value

unfoldable pub new : ℤ → ℤ → ℤ → ℤ → Fetcher
new timeout max_bytes cache_budget ttl =
    let page = or_default max_bytes default_max_bytes in
    let wanted = or_default cache_budget default_cache_max_bytes in
    let budget = if ltb_ℤ wanted page then page else wanted in
    let age = or_default ttl default_ttl in
    record {
      timeout = or_default timeout default_timeout;
      max_bytes = pos_part page;
      cache_budget = pos_part budget;
      snapshots = Memory.new budget age;
      results = Memory.new budget age;
    }

unfoldable pub result_of : Url → ℕ → Bytes → ℕ → Paged → Result
result_of u status content_type offset p = record {
  url = u.redacted;
  status_code = status;
  content_type = content_type;
  offset = offset;
  content = p.content;
  bytes = length p.content;
  truncated = p.truncated;
  next_offset = p.next_offset;
}

unfoldable pub page_result : Fetcher → Url → ℕ → Bytes → Bytes → ℕ → Result
unfolding result_of
page_result f u status content_type body offset =
    result_of u status content_type offset (page_from body offset f.max_bytes)

unfoldable pub store_result : Fetcher → ℕ → Bytes → Result → Fetcher
store_result f done key result =
    if is_empty key
    then f
    else record f { results = Memory.put key result (length result.content) done f.results }

-- The page, whether the document went into the snapshot cache, and the fetcher.
unfoldable pub capture_and_page :
    Fetcher → ℕ → Url → Response → Bool → Bytes → Outcome FetchError (Result × Bool) × Fetcher
unfolding page_result
capture_and_page f done u resp in_time key = elim (read_chunk resp.body f.max_bytes 0) [
  | none ↦ (err read_failed, f)
  | some (page, _) ↦
      let (rest, complete) =
        capture_rest in_time (skip (f.max_bytes + 1) resp.body) (f.cache_budget - length page) in
      let body = page ++ rest in
      if not complete
      then (ok (page_result f u resp.status_code resp.content_type page 0, false), f)
      else if leb (length body) f.cache_budget
      then (
        ok (page_result f u resp.status_code resp.content_type body 0, true),
        record f {
          snapshots =
              Memory.put key
                (record {
                  body = body;
                  status_code = resp.status_code;
                  content_type = resp.content_type;
                })
                (length body) done f.snapshots;
        },
      )
      else (ok (page_result f u resp.status_code resp.content_type body 0, false), f)
]

-- What `Fetch` does once the caches have missed.
unfoldable pub fetch_origin :
    Fetcher → ℕ → Url → ℕ → Bytes → Bytes → Origin → Outcome FetchError Result × Fetcher
unfolding result_of
fetch_origin f done u offset snap_key result_key origin = elim (origin.answer u) [
  | none ↦ (err no_answer, f)
  | some resp ↦
      if ltb resp.status_code 200 || ltb 299 resp.status_code
      then (err (bad_status resp.status_code), f)
      else if not (is_empty snap_key)
          && (offset == 0
              && (leb_ℤ resp.content_length (pos 0)
                  || leb_ℤ resp.content_length (pos f.cache_budget)))
      then (let (outcome, f') = capture_and_page f done u resp origin.in_time snap_key in
          elim outcome [
            | err e ↦ (err e, f')
            | ok (result, captured) ↦
                (ok result, if captured then f' else store_result f' done result_key result)
          ])
      else elim (page_from_stream resp.body f.max_bytes offset) [
        | none ↦ (err read_failed, f)
        | some page ↦
            let result = result_of u resp.status_code resp.content_type offset page in
            (ok result, store_result f done result_key result)
      ]
]

unfoldable pub snap_key_of : Bytes → Bytes → Bytes
snap_key_of cache_key raw_url = if is_empty cache_key then [] else join cache_key raw_url

unfoldable pub result_key_of : Bytes → Bytes → ℕ → Bytes
unfolding snap_key_of
result_key_of cache_key raw_url offset =
    if is_empty cache_key then [] else join (snap_key_of cache_key raw_url) (format_int offset)

-- A look at one of the caches, for a key that may be empty.
abbrev pub cached {ℓ} : {V : Type ℓ} → Bytes → ℕ → MemoryCache V → MemoryCache V × Option V
cached key now c = if is_empty key then (c, none) else Memory.get key now c

-- The caches, then the origin.
unfoldable pub fetch_cached :
    Fetcher → ℕ → ℕ → Url → ℕ → Bytes → Bytes → Origin → Outcome FetchError Result × Fetcher
unfolding page_result
fetch_cached f now done u offset snap_key result_key origin =
    let (results, hit) = cached result_key now f.results in
    let f1 = record f { results = results } in
    elim hit [
      | some result ↦ (ok result, f1)
      | none ↦
          let (snapshots, entry) = cached snap_key now f.snapshots in
          let f2 = record f1 { snapshots = snapshots } in
          elim entry [
            | some e ↦ (ok (page_result f u e.status_code e.content_type e.body offset), f2)
            | none ↦ fetch_origin f2 done u offset snap_key result_key origin
          ]
    ]

unfoldable pub is_http : Url → Bool
is_http u = same u.scheme (codes "http") || same u.scheme (codes "https")

module _ (parse : Bytes → Option Url) where
  -- The checks of the arguments.
  unfoldable pub check : Bytes → ℤ → Outcome FetchError Url
  unfolding is_http
  check raw_url offset =
      if is_blank raw_url
      then err empty_url
      else if ltb_ℤ offset (pos 0)
      then err negative_offset
      else elim (parse raw_url) [
        | none ↦ err bad_url
        | some u ↦ if is_http u then ok u else err bad_scheme
      ]

  unfoldable pub fetch :
      Fetcher → ℕ → ℕ → Bytes → ℤ → Bytes → Origin → Outcome FetchError Result × Fetcher
  fetch f now done raw_url offset cache_key origin = elim (check raw_url offset) [
    | err e ↦ (err e, f)
    | ok u ↦
        fetch_cached f now done u (pos_part offset) (snap_key_of cache_key raw_url)
          (result_key_of cache_key raw_url (pos_part offset)) origin
  ]
