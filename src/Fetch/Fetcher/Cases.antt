-- ===== src/Fetch/Fetcher/Cases.antt =====
-- The states in which a fetch may leave the fetcher.
use mcp_webtools.Prelude.{ℕ, Bool, Option, arith, ℤ, pos_part, Bytes}
use mcp_webtools.Cache.Memory
use mcp_webtools.Cache.Memory.{MemoryCache}
use mcp_webtools.Fetch.Fetcher.{
  Url, Response, Origin, Result, DocEntry, Fetcher, fetch, fetch_cached, fetch_origin,
  capture_and_page, store_result, snap_key_of, result_key_of, cached,
}

module _ {ℓ} (P : Fetcher → Type ℓ) (f : Fetcher) (done : ℕ) where
  capture_cases :
      (u : Url) (resp : Response) (in_time : Bool) (key : Bytes)
      → P f
      → ((e : DocEntry) (n : ℕ) → P (record f { snapshots = Memory.put key e n done f.snapshots }))
      → P (capture_and_page f done u resp in_time key).1
  unfolding capture_and_page
  capture_cases u resp in_time key p q = grind arith

  pub origin_cases :
      (u : Url) (offset : ℕ) (sk rk : Bytes) (origin : Origin)
      → P f
      → ((e : DocEntry) (n : ℕ) → P (record f { snapshots = Memory.put sk e n done f.snapshots }))
      → ((g : Fetcher) (r : Result) → P g → P (store_result g done rk r))
      → P (fetch_origin f done u offset sk rk origin).1
  unfolding fetch_origin
  origin_cases u offset sk rk origin p q s =
      grind (arith, λ (resp : Response). capture_cases u resp origin.in_time sk p q)

  pub cached_cases :
      (now : ℕ) (u : Url) (offset : ℕ) (sk rk : Bytes) (origin : Origin)
      → let f1 : Fetcher = record f { results = (cached rk now f.results).0 } in
        let f2 : Fetcher = record f1 { snapshots = (cached sk now f.snapshots).0 } in
        P f1
        → P f2
        → P (fetch_origin f2 done u offset sk rk origin).1
        → P (fetch_cached f now done u offset sk rk origin).1
  unfolding fetch_cached
  cached_cases now u offset sk rk origin p q r = grind arith

  pub fetch_cases :
      (parse : Bytes → Option Url) (now : ℕ) (raw_url : Bytes) (offset : ℤ) (cache_key : Bytes)
      (origin : Origin)
      → P f
      → ((u : Url)
          → P
              (fetch_cached f now done u
                (pos_part offset)
                (snap_key_of cache_key raw_url)
                (result_key_of cache_key raw_url (pos_part offset))
                origin).1)
      → P (fetch parse f now done raw_url offset cache_key origin).1
  unfolding fetch
  fetch_cases parse now raw_url offset cache_key origin p q = grind arith
