-- ===== src/Search/Runs.antt =====
-- The four courses of a search: no caller, a cached answer, a failure, a new answer.
use mcp_webtools.Prelude.{
  ok, err, ℕ, ◌≡◌, inl, inr, true, false, none, some, List, arith, Bytes, is_empty, Outcome-cases,
}
use mcp_webtools.Cache.Memory
use mcp_webtools.Cache.Memory.{MemoryCache, Entry, delete_locked, expired, insert}
use mcp_webtools.Search.{
  Hit, Instance, SearchError, Searcher, query_instance, store, search_cached, size_of,
}

module _ (s : Searcher) (now done : ℕ) (query : Bytes) (limit : ℕ) (key : Bytes)
    (i : Instance) where
  abbrev pub looked : Searcher
  looked = record s { results = (Memory.get key now s.results).0 }

  pub run_anonymous :
      is_empty key ≡ true
      → search_cached s now done query limit key i ≡ (query_instance i query limit, s)
  unfolding search_cached store
  run_anonymous e = elim (Outcome-cases (query_instance i query limit)) [
    | inl (_, bad) ↦ ground (arith, bad)
    | inr (_, good) ↦ ground (arith, good)
  ]

  pub run_hit :
      (hits : List Hit)
      → is_empty key ≡ false
      → (Memory.get key now s.results).1 ≡ some hits
      → search_cached s now done query limit key i ≡ (ok hits, looked)
  unfolding search_cached
  run_hit hits e h = ground (arith, e, h)

  pub run_failed :
      (e : SearchError)
      → is_empty key ≡ false
      → (Memory.get key now s.results).1 ≡ none
      → query_instance i query limit ≡ err e
      → search_cached s now done query limit key i ≡ (err e, looked)
  unfolding search_cached
  run_failed e named h bad = ground (arith, named, h, bad)

  pub run_new :
      (hits : List Hit)
      → is_empty key ≡ false
      → (Memory.get key now s.results).1 ≡ none
      → query_instance i query limit ≡ ok hits
      → search_cached s now done query limit key i ≡ (
        ok hits,
        record looked { results = Memory.put key hits (size_of hits) done looked.results },
      )
  unfolding search_cached store
  run_new hits named h good = ground (arith, named, h, good)
