-- ===== src/Fetch/Fetcher/Snapshots.antt =====
-- A document that was captured on its first fetch, and the fetches after it.
use mcp_webtools.Prelude.{
  Outcome, ok, ℕ, ◌+◌, ◌≤◌, ◌<◌, ◌≡◌, ap, ◌∙◌, true, false, ◌&&◌, ◌||◌, Option, none, some, arith,
  length, take, length-take, ℤ, pos, sub_ℕ, ltb_ℤ, leb_ℤ, Bytes, is_empty,
}
use mcp_webtools.Cache.Table.{lookup}
use mcp_webtools.Fetch.Fetcher.{
  Url, Origin, Result, FetchError, Fetcher, fetch, fetch_cached, capture_and_page, page_result,
  snap_key_of, result_key_of, check,
}
use mcp_webtools.Fetch.Fetcher.Safety.{IsWell}
use mcp_webtools.Fetch.Fetcher.Captured.{
  keys_named, answered, with_snapshot, capture_whole, capture_short, first_fetch, later_fetch,
}

check_pos :
    (parse : Bytes → Option Url) (raw_url : Bytes) (m n : ℕ)
    → check parse raw_url (pos m) ≡ check parse raw_url (pos n)
unfolding check
check_pos parse raw_url m n = ground arith

fetch_checked :
    (parse : Bytes → Option Url) (f : Fetcher) (now done : ℕ) (raw_url : Bytes) (offset : ℕ)
    (cache_key : Bytes) (origin : Origin) (u : Url)
    → check parse raw_url (pos offset) ≡ ok u
    → fetch parse f now done raw_url (pos offset) cache_key origin
      ≡ fetch_cached f now done u offset
          (snap_key_of cache_key raw_url)
          (result_key_of cache_key raw_url offset)
          origin
unfolding fetch
fetch_checked parse f now done raw_url offset cache_key origin u h = ground (arith, h)

-- The first fetch of a document: nothing is cached under its keys, the origin answers it with a
-- status of success, a length that is unknown or within the budget, and a body that ends cleanly
-- before the capture's timer.
pub record FirstFetch (parse : Bytes → Option Url) (f : Fetcher) (raw_url cache_key : Bytes)
    (u : Url) (origin : Origin) (status : ℕ) (content_type : Bytes) (content_length : ℤ)
    (body : Bytes) : Type 0 where
  pub well : IsWell f
  pub named : is_empty cache_key ≡ false
  pub accepted : check parse raw_url (pos 0) ≡ ok u
  pub no_snapshot : lookup (snap_key_of cache_key raw_url) f.snapshots.items ≡ none
  pub no_result : (n : ℕ) → lookup (result_key_of cache_key raw_url n) f.results.items ≡ none
  pub answers : origin.answer u ≡ some (answered status content_type content_length body)
  pub on_time : origin.in_time ≡ true
  pub good : (200 ≤ status) × (status ≤ 299)
  pub sized : (leb_ℤ content_length (pos 0) || leb_ℤ content_length (pos f.cache_budget)) ≡ true

module _ (parse : Bytes → Option Url) (f : Fetcher) (raw_url cache_key : Bytes) (u : Url)
    (origin : Origin) (status : ℕ) (content_type : Bytes) (content_length : ℤ) (body : Bytes)
    (first : FirstFetch parse f raw_url cache_key u origin status content_type content_length body)
    (now done later done' offset : ℕ) (origin' : Origin)
    (alive : (ltb_ℤ (pos 0) f.snapshots.ttl && ltb_ℤ f.snapshots.ttl (sub_ℕ later done))
      ≡ false) where
  abbrev first_outcome : Outcome FetchError Result × Fetcher
  first_outcome = fetch parse f now done raw_url (pos 0) cache_key origin

  abbrev later_outcome : Outcome FetchError Result × Fetcher
  later_outcome = fetch parse first_outcome.1 later done' raw_url (pos offset) cache_key origin'

  -- Both fetches serve pages of what the capture kept.
  both_serve :
      (kept : Bytes)
      → length kept ≤ f.cache_budget
      → capture_and_page f done u
          (answered status content_type content_length body)
          true
          (snap_key_of cache_key raw_url)
        ≡ (
          ok (page_result f u status content_type kept 0, true),
          with_snapshot f done u status content_type (snap_key_of cache_key raw_url) kept,
        )
      → (first_outcome.0 ≡ ok (page_result f u status content_type kept 0))
        × (later_outcome.0 ≡ ok (page_result f u status content_type kept offset))
  both_serve kept fits captured =
      let sk = snap_key_of cache_key raw_url in
      let rk = result_key_of cache_key raw_url 0 in
      let rk' = result_key_of cache_key raw_url offset in
      let is_named = (keys_named cache_key raw_url 0 first.named).0 in
      let one : first_outcome ≡ (
        ok (page_result f u status content_type kept 0),
        with_snapshot f done u status content_type sk kept,
      ) =
        fetch_checked parse f now done raw_url 0 cache_key origin u first.accepted
        ∙ first_fetch f done u status content_type sk rk now is_named (first.no_result 0)
            first.no_snapshot origin (answered status content_type content_length body)
            first.answers first.on_time first.good first.sized captured in
      let two : later_outcome
          ≡ fetch_cached (with_snapshot f done u status content_type sk kept) later done' u offset
              sk rk' origin' =
        ap
          (λ (o : Outcome FetchError Result × Fetcher).
            fetch parse o.1 later done' raw_url (pos offset) cache_key origin')
          one
        ∙ fetch_checked parse _ later done' raw_url offset cache_key origin' u
            (check_pos parse raw_url offset 0 ∙ first.accepted) in
      (
        ap (λ (o : Outcome FetchError Result × Fetcher). o.0) one,
        ap (λ (o : Outcome FetchError Result × Fetcher). o.0) two
            ∙ later_fetch f done u status content_type sk rk now is_named (first.no_result 0)
                first.no_snapshot kept later done' offset rk' origin' first.well fits
                (first.no_result offset) alive,
      )

  -- A named caller's first fetch of a document that is within the cache budget, whose origin
  -- answers it with success, with a length that is unknown or within that budget, and ends cleanly
  -- and in time, where the caller has nothing cached for the URL, returns the first page; while
  -- the snapshot lives, a later fetch by that caller returns the page at its offset, whatever the
  -- origin would answer by then.
  pub fetch-snapshot :
      length body ≤ f.cache_budget
      → (first_outcome.0 ≡ ok (page_result f u status content_type body 0))
        × (later_outcome.0 ≡ ok (page_result f u status content_type body offset))
  fetch-snapshot fits = both_serve body fits (
      capture_whole f done u status content_type content_length body (snap_key_of cache_key raw_url)
        fits)

  -- Under the conditions of a first fetch, a document of exactly one byte more than the budget,
  -- pages smaller than the budget, is cached without its last byte: the first page and every later
  -- one are pages of the shorter document.
  pub fetch-snapshot_short :
      length body ≡ f.cache_budget + 1
      → f.max_bytes < f.cache_budget
      → (first_outcome.0 ≡ ok (page_result f u status content_type (take f.cache_budget body) 0))
        × (later_outcome.0
            ≡ ok (page_result f u status content_type (take f.cache_budget body) offset))
  fetch-snapshot_short over room =
      both_serve (take f.cache_budget body) (omega (arith, length-take f.cache_budget body)) (
        capture_short f done u status content_type content_length body
          (snap_key_of cache_key raw_url) over room)
