-- ===== src/Search/Requests/Alone.antt =====
-- A search that nothing interrupts does what `search` does in one step.
use mcp_webtools.Prelude.{
  Outcome, ℕ, ◌≡◌, inl, inr, List, arith, Bool-cases, Option-cases, is_blank, Outcome-cases,
}
use mcp_webtools.Search.{Hit, SearchError, Searcher, query_instance, search_cached, search}
use mcp_webtools.Search.Requests.{
  SearchCall, limit_of, call_key, Progress, starting, ended, looked_up, look_for_hits, queried,
  proceed,
}

-- The steps of a request with nothing in between: it looks at `now`, and stores at `done`.
unfoldable pub run_alone : SearchCall → ℕ → ℕ → Searcher → Progress × Searcher
unfolding proceed
run_alone c now done s =
    let (p1, s1) = proceed c now starting s in
    let (p2, s2) = proceed c now p1 s1 in proceed c done p2 s2

abbrev as_step : Outcome SearchError (List Hit) × Searcher → Progress × Searcher
as_step (r, s) = (ended r, s)

--
pub run_alone-search :
    (c : SearchCall) (now done : ℕ) (s : Searcher)
    → run_alone c now done s ≡ as_step (search s now done c.query c.limit c.cache_key c.instance_of)
unfolding run_alone proceed look_for_hits queried search search_cached
run_alone-search c now done s = elim (Bool-cases (is_blank c.query)) [
  | inl blank ↦ ground (arith, blank)
  | inr filled ↦ elim (Option-cases (looked_up (call_key c) now s.results).1) [
    | inr (hits, hit) ↦ ground (arith, filled, hit)
    | inl miss ↦ elim (Outcome-cases (query_instance c.instance_of c.query (limit_of c))) [
      | inl (e, bad) ↦ ground (arith, filled, miss, bad)
      | inr (hits, good) ↦ ground (arith, filled, miss, good)
    ]
  ]
]
