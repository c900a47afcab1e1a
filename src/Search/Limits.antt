-- ===== src/Search/Limits.antt =====
-- How many hits a search returns.
use mcp_webtools.Prelude.{
  ok, ℕ, ◌≤◌, ◌<◌, ◌≡◌, refl, sym, subst, inl, inr, List, arith, ltb, if◌then◌else◌, Option-cases,
  length, take, length-take, ℤ, pos_part, Bytes,
}
use mcp_webtools.Search.{Hit, Instance, Searcher, normal_limit, query_instance, search}

normal_limit_range :
    (limit : ℤ) → (0 < pos_part (normal_limit limit)) × (pos_part (normal_limit limit) ≤ 50)
unfolding normal_limit
normal_limit_range limit = ground arith

normal_limit_idem : (limit : ℤ) → normal_limit (normal_limit limit) ≡ normal_limit limit
unfolding normal_limit
normal_limit_idem limit = ground arith

-- A search with any limit is the search with the limit brought into its range, cache entry
-- included.
pub search-normal_limit :
    (s : Searcher) (now done : ℕ) (query : Bytes) (limit : ℤ) (cache_key : Bytes) (i : Instance)
    → search s now done query limit cache_key i
      ≡ search s now done query (normal_limit limit) cache_key i
unfolding search
search-normal_limit s now done query limit cache_key i = rw (normal_limit_idem limit) refl

bounded :
    (all : List Hit) (limit : ℕ)
    → length (if ltb limit (length all) then take limit all else all) ≤ limit
bounded all limit = ground (arith, length-take limit all)

-- Whatever the instance answers, a query that succeeds returns no more hits than its limit.
pub length-query_instance :
    (i : Instance) (query : Bytes) (limit : ℕ) (hits : List Hit)
    → query_instance i query limit ≡ ok hits
    → length hits ≤ limit
unfolding query_instance
length-query_instance i query limit hits h = elim (Option-cases (i.answer query)) [
  | inl none_sent ↦ ground (arith, none_sent)
  | inr (reply, sent) ↦ elim (Option-cases reply.payload) [
    | inl bad ↦ ground (arith, sent, bad)
    | inr (all, good) ↦
        let e : hits ≡ (if ltb limit (length all) then take limit all else all) =
          grind (arith, sent, good, h) in
        subst (λ l. length l ≤ limit) (sym e) (bounded all limit)
  ]
]
