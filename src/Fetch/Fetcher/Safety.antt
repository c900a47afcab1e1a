-- ===== src/Fetch/Fetcher/Safety.antt =====
-- What every fetch keeps: the caches' invariants, and the entries of other callers.
use mcp_webtools.Prelude.{
  ℕ, ◌≤◌, ◌<◌, ◌≡◌, refl, sym, ap, ◌∙◌, ◌≢◌, ◌⊎◌, inl, inr, false, Option, none, arith,
  if◌then◌else◌, Bool-cases, ℤ, pos, pos_part, Bytes, is_empty,
}
use mcp_webtools.Cache.Memory
use mcp_webtools.Cache.Memory.{MemoryCache, Entry}
use mcp_webtools.Cache.Memory.Invariant.{IsValid, new-IsValid}
use mcp_webtools.Cache.Memory.Frame.{Touched, Touched-refl, Touched-trans, Touched-put, Touched-get}
use mcp_webtools.Cache.Table.{lookup}
use mcp_webtools.Keys.{format_int}
use mcp_webtools.Keys.Decimal.{HasNoNul, format_int-HasNoNul}
use mcp_webtools.Keys.Split.{join-injective, join-injective_last}
use mcp_webtools.Fetch.Fetcher.Cases.{origin_cases, cached_cases, fetch_cases}
use mcp_webtools.Fetch.Fetcher.{
  Url, Origin, Result, DocEntry, Fetcher, new, fetch, fetch_cached, store_result, snap_key_of,
  result_key_of, cached,
}

-- Both caches are well formed, and their budget is the fetcher's.
pub record IsWell (f : Fetcher) : Type 0 where
  pub snapshots_valid : IsValid f.snapshots
  pub results_valid : IsValid f.results
  pub snapshots_budget : f.snapshots.max_bytes ≡ pos f.cache_budget
  pub results_budget : f.results.max_bytes ≡ pos f.cache_budget
  pub page_fits : f.max_bytes ≤ f.cache_budget
  pub page_pos : 0 < f.max_bytes

-- What a fetch under these two keys does to the fetcher.
pub record Served (snap_key result_key : Bytes) (f f' : Fetcher) : Type 0 where
  pub snapshots : Touched snap_key f.snapshots f'.snapshots
  pub results : Touched result_key f.results f'.results
  pub same_max : f'.max_bytes ≡ f.max_bytes
  pub same_budget : f'.cache_budget ≡ f.cache_budget

Served-refl : (sk rk : Bytes) {f : Fetcher} → IsWell f → Served sk rk f f
Served-refl sk rk w = record {
  snapshots = Touched-refl sk w.snapshots_valid;
  results = Touched-refl rk w.results_valid;
  same_max = refl;
  same_budget = refl;
}

Served-trans :
    {sk rk : Bytes} {f g h : Fetcher} → Served sk rk f g → Served sk rk g h → Served sk rk f h
Served-trans {sk} {rk} p q = record {
  snapshots = Touched-trans sk p.snapshots q.snapshots;
  results = Touched-trans rk p.results q.results;
  same_max = q.same_max ∙ p.same_max;
  same_budget = q.same_budget ∙ p.same_budget;
}

pub Touched-cached {ℓ} :
    {V : Type ℓ} (k : Bytes) (now : ℕ) {c : MemoryCache V}
    → IsValid c
    → Touched k c (cached k now c).0
Touched-cached k now {c} h = elim (Bool-cases (is_empty k)) [
  | inl e ↦ rw (e, if◌then◌else◌) (Touched-refl k h)
  | inr e ↦ rw (e, if◌then◌else◌) (Touched-get k now h)
]

module _ (sk rk : Bytes) (done : ℕ) where
  store_result-Served :
      {f : Fetcher} (g : Fetcher) (r : Result)
      → Served sk rk f g
      → Served sk rk f (store_result g done rk r)
  unfolding store_result
  store_result-Served g r s = elim (Bool-cases (is_empty rk)) [
    | inl e ↦ rw (e, if◌then◌else◌) s
    | inr e ↦
        rw (e, if◌then◌else◌)
          (record {
            snapshots = s.snapshots;
            results = Touched-trans rk s.results (Touched-put rk r _ done s.results.valid);
            same_max = s.same_max;
            same_budget = s.same_budget;
          })
  ]

  put-Served :
      {f g : Fetcher} (e : DocEntry) (n : ℕ)
      → Served sk rk f g
      → Served sk rk f (record g { snapshots = Memory.put sk e n done g.snapshots })
  put-Served e n s = record {
    snapshots = Touched-trans sk s.snapshots (Touched-put sk e n done s.snapshots.valid);
    results = s.results;
    same_max = s.same_max;
    same_budget = s.same_budget;
  }

  fetch_cached-Served :
      (f : Fetcher) (now : ℕ) (u : Url) (offset : ℕ) (origin : Origin)
      → IsWell f
      → Served sk rk f (fetch_cached f now done u offset sk rk origin).1
  fetch_cached-Served f now u offset origin w =
      let s0 = Served-refl sk rk w in
      let s1 : Served sk rk f (record f { results = (cached rk now f.results).0 }) = record {
        snapshots = s0.snapshots;
        results = Touched-cached rk now w.results_valid;
        same_max = refl;
        same_budget = refl;
      } in
      let s2 : Served sk rk f (record f {
        results = (cached rk now f.results).0;
        snapshots = (cached sk now f.snapshots).0;
      }) =
        record {
          snapshots = Touched-cached sk now w.snapshots_valid;
          results = s1.results;
          same_max = refl;
          same_budget = refl;
        } in
      cached_cases (Served sk rk f) f done now u offset sk rk origin s1 s2 (
        origin_cases (Served sk rk f) _ done u offset sk rk origin s2 (λ e n. put-Served e n s2)
          store_result-Served)

module _ (parse : Bytes → Option Url) (f : Fetcher) (now done : ℕ) (raw_url : Bytes) (offset : ℤ)
    (cache_key : Bytes) (origin : Origin) (w : IsWell f) where
  abbrev after : Fetcher
  after = (fetch parse f now done raw_url offset cache_key origin).1

  fetch-Served :
      Served
        (snap_key_of cache_key raw_url)
        (result_key_of cache_key raw_url (pos_part offset))
        f
        after
  fetch-Served =
      let sk = snap_key_of cache_key raw_url in
      let rk = result_key_of cache_key raw_url (pos_part offset) in
      fetch_cases (Served sk rk f) f done parse now raw_url offset cache_key origin
        (Served-refl sk rk w)
        (λ u. fetch_cached-Served sk rk done f now u (pos_part offset) origin w)

  -- On a well-formed fetcher any fetch, whatever the origin does, leaves both caches valid and
  -- within the fetcher's budget, and a page no larger than the budget.
  pub fetch-IsWell : IsWell after
  fetch-IsWell =
      let s = fetch-Served in
      record {
        snapshots_valid = s.snapshots.valid;
        results_valid = s.results.valid;
        snapshots_budget = s.snapshots.same_max ∙ w.snapshots_budget ∙ ap pos (sym s.same_budget);
        results_budget = s.results.same_max ∙ w.results_budget ∙ ap pos (sym s.same_budget);
        page_fits = rw (s.same_max, s.same_budget) w.page_fits;
        page_pos = rw s.same_max w.page_pos;
      }

  -- Two callers, neither of them anonymous, whose IDs hold no NUL.
  module _ (other : Bytes) (apart : cache_key ≢ other) (named : is_empty other ≡ false)
      (plain : HasNoNul cache_key) (other_plain : HasNoNul other) where
    snap_keys_differ : (url : Bytes) → snap_key_of other url ≢ snap_key_of cache_key raw_url
    unfolding snap_key_of
    snap_keys_differ url e =
        ground (arith, join-injective other cache_key url raw_url other_plain plain)

    result_keys_differ :
        (url : Bytes) (n : ℕ)
        → result_key_of other url n ≢ result_key_of cache_key raw_url (pos_part offset)
    unfolding result_key_of
    result_keys_differ url n e = ground (
      arith,
      join-injective_last (snap_key_of other url) (snap_key_of cache_key raw_url) (format_int n)
          (format_int (pos_part offset)) (format_int-HasNoNul n)
          (format_int-HasNoNul (pos_part offset)),
      snap_keys_differ url,
    )

    -- For two different caller IDs without NUL, neither empty, a fetch for one of them leaves
    -- every snapshot and every result of the other as it was, or evicted.
    pub fetch-isolates :
        (url : Bytes) (n : ℕ)
        → let sk = snap_key_of other url in
          let rk = result_key_of other url n in
          ((lookup sk after.snapshots.items ≡ none)
            ⊎ (lookup sk after.snapshots.items ≡ lookup sk f.snapshots.items))
          × ((lookup rk after.results.items ≡ none)
              ⊎ (lookup rk after.results.items ≡ lookup rk f.results.items))
    fetch-isolates url n = (
      fetch-Served.snapshots.others _ (snap_keys_differ url),
      fetch-Served.results.others _ (result_keys_differ url n),
    )

-- For any parameters, New gives a fetcher with valid caches whose budget is the fetcher's and
-- holds at least one page, and pages that are not empty.
pub new-IsWell :
    (timeout max_bytes cache_budget ttl : ℤ) → IsWell (new timeout max_bytes cache_budget ttl)
unfolding new Memory.new
new-IsWell timeout max_bytes cache_budget ttl = record {
  snapshots_valid = new-IsValid _ _;
  results_valid = new-IsValid _ _;
  snapshots_budget = ground arith;
  results_budget = ground arith;
  page_fits = ground arith;
  page_pos = ground arith;
}
