-- ===== src/Search/Requests.antt =====
-- `Search` of internal/tools/search/search.go as requests that run at the same time: the look into the
-- cache, the query, and the store are a step each, and steps of others may run in between.
pub mod Sources
pub mod Reached
pub mod Alone
use mcp_webtools.Prelude.{
  Outcome, ok, err, ℕ, ◌≡◌, Option, none, some, List, ◌==◌, if◌then◌else◌, ℤ, pos_part, Bytes,
  is_empty, is_blank,
}
use mcp_webtools.Cache.Memory
use mcp_webtools.Cache.Memory.{MemoryCache}
use mcp_webtools.Search.{
  Hit, Instance, SearchError, empty_query, Searcher, normal_limit, key_of, query_instance, store,
}

-- A call of the tool, with what its query meets where it sends one.
pub record SearchCall : Type 0 where
  pub query : Bytes
  pub limit : ℤ
  pub cache_key : Bytes
  pub instance_of : Instance

abbrev pub limit_of : SearchCall → ℕ
limit_of c = pos_part (normal_limit c.limit)

abbrev pub call_key : SearchCall → Bytes
call_key c = key_of c.cache_key c.query (limit_of c)

pub data Progress : Type 0 where
  starting missed : Progress
  keeping : List Hit → Progress
  ended : Outcome SearchError (List Hit) → Progress

abbrev pub looked_up :
    Bytes → ℕ → MemoryCache (List Hit) → MemoryCache (List Hit) × Option (List Hit)
looked_up key now c = if is_empty key then (c, none) else Memory.get key now c

unfoldable pub look_for_hits : SearchCall → ℕ → Searcher → Progress × Searcher
look_for_hits c now s =
    if is_blank c.query
    then (ended (err empty_query), s)
    else let (results, hit) = looked_up (call_key c) now s.results in
      let next = record s { results = results } in
      elim hit [ some hits ↦ (ended (ok hits), next) | none ↦ (missed, next) ]

unfoldable pub queried : SearchCall → Progress
queried c = elim (query_instance c.instance_of c.query (limit_of c)) [
  | err e ↦ ended (err e)
  | ok hits ↦ keeping hits
]

-- One step of a request, at the time `now`.
unfoldable pub proceed : SearchCall → ℕ → Progress → Searcher → Progress × Searcher
unfolding look_for_hits queried
proceed c now starting s = look_for_hits c now s
proceed c now missed s = (queried c, s)
proceed c now (keeping hits) s = (ended (ok hits), store s now (call_key c) hits)
proceed c now (ended r) s = (ended r, s)

-- The requests over one searcher; each number names one.
pub record System : Type 0 where
  pub searcher : Searcher
  pub pc : ℕ → Progress

abbrev pub set_pc : ℕ → Progress → (ℕ → Progress) → ℕ → Progress
set_pc i next pc j = if i == j then next else pc j

module _ (calls : ℕ → SearchCall) where
  abbrev pub step : ℕ → ℕ → System → System
  step i now s = record {
    searcher = (proceed (calls i) now (s.pc i) s.searcher).1;
    pc = set_pc i (proceed (calls i) now (s.pc i) s.searcher).0 s.pc;
  }

  -- The request `i` makes its next step, at any time.
  pub data Step (s : System) : System → Type 0 where
    run : (i now : ℕ) {t : System} → t ≡ step i now s → Step s t

  pub data Reach (g : Searcher) : System → Type 0 where
    start : {s : System} → s ≡ record { searcher = g; pc = λ i. starting } → Reach g s
    later : {s t : System} → Reach g s → Step s t → Reach g t
