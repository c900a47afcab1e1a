-- ===== src/Search/Kept.antt =====
-- What the cache of searches may hold, so that a cached answer respects the limit too.
use mcp_webtools.Prelude.{
  Outcome, ok, err, ℕ, ◌≤◌, ◌≡◌, refl, subst, inl, inr, false, List, [], ◌∷◌, arith, if◌then◌else◌,
  Bool-cases, Option-cases, length, ℤ, pos_part, Bytes, is_empty, is_blank, Outcome-cases,
}
use mcp_webtools.Cache.Memory
use mcp_webtools.Cache.Memory.Invariant.{IsValid, new-IsValid, put-IsValid, get-IsValid}
use mcp_webtools.Cache.Memory.Contents.{AllHeld, AllHeld-new, AllHeld-get, AllHeld-put, held_of_get}
use mcp_webtools.Keys.{join, format_int}
use mcp_webtools.Keys.Decimal.{format_int-HasNoNul, format_int-injective}
use mcp_webtools.Keys.Split.{join-injective_last}
use mcp_webtools.Search.{
  Hit, Instance, SearchError, Searcher, new, normal_limit, key_of, query_instance, search_cached,
  search, size_of,
}
use mcp_webtools.Search.Runs.{looked, run_anonymous, run_hit, run_failed, run_new}
use mcp_webtools.Search.Limits.{length-query_instance}

-- Under a key that ends with a limit stands no more than the limit.
abbrev pub KeyBounds : Bytes → List Hit → Type 0
KeyBounds k hits = (front : Bytes) (n : ℕ) → k ≡ join front (format_int n) → length hits ≤ n

pub record IsBounded (s : Searcher) : Type 0 where
  pub valid : IsValid s.results
  pub kept : AllHeld KeyBounds s.results

abbrev pub Within : ℕ → Outcome SearchError (List Hit) → Type 0
Within n (err e) = Unit {0}
Within n (ok hits) = length hits ≤ n

KeyBounds-key_of :
    (cache_key query : Bytes) (n : ℕ) (hits : List Hit)
    → is_empty cache_key ≡ false
    → length hits ≤ n
    → KeyBounds (key_of cache_key query n) hits
unfolding key_of
KeyBounds-key_of cache_key query n hits named h front m e =
    let whole : join (join cache_key query) (format_int n) ≡ join front (format_int m) =
      ground (arith, named, e) in
    let same_number =
      (join-injective_last (join cache_key query) front (format_int n) (format_int m)
        (format_int-HasNoNul n) (format_int-HasNoNul m) whole).1 in
    subst (λ l. length hits ≤ l) (format_int-injective n m same_number) h

get-IsBounded :
    (s : Searcher) (key : Bytes) (now : ℕ)
    → IsBounded s
    → IsBounded (record s { results = (Memory.get key now s.results).0 })
get-IsBounded s key now b = record {
  valid = get-IsValid key now s.results b.valid;
  kept = AllHeld-get KeyBounds key now s.results b.valid b.kept;
}

put-IsBounded :
    (s : Searcher) (key : Bytes) (hits : List Hit) (done : ℕ)
    → IsBounded s
    → KeyBounds key hits
    → IsBounded (record s { results = Memory.put key hits (size_of hits) done s.results })
put-IsBounded s key hits done b bounds = record {
  valid = put-IsValid key hits (size_of hits) done s.results b.valid;
  kept = AllHeld-put KeyBounds key hits (size_of hits) done s.results b.valid bounds b.kept;
}

module _ (s : Searcher) (now done : ℕ) (query : Bytes) (limit : ℕ) (key : Bytes)
    (i : Instance) where
  Within-query : Within limit (query_instance i query limit)
  Within-query = elim (Outcome-cases (query_instance i query limit)) [
    | inl (e, bad) ↦ rw bad tt
    | inr (hits, good) ↦ rw good (length-query_instance i query limit hits good)
  ]

  search_cached-IsBounded :
      IsBounded s
      → (is_empty key ≡ false → (hits : List Hit) → length hits ≤ limit → KeyBounds key hits)
      → (is_empty key ≡ false → (hits : List Hit) → KeyBounds key hits → length hits ≤ limit)
      → IsBounded (search_cached s now done query limit key i).1
        × Within limit (search_cached s now done query limit key i).0
  search_cached-IsBounded b bounds back = elim (Bool-cases (is_empty key)) [
    | inl anonymous ↦ rw (run_anonymous s now done query limit key i anonymous) (b, Within-query)
    | inr named ↦ elim (Option-cases (Memory.get key now s.results).1) [
      | inr (hits, hit) ↦
          let (e, held, same_value) = held_of_get key now s.results hits hit in
          rw (run_hit s now done query limit key i hits named hit) (
            get-IsBounded s key now b,
            back named hits (subst (KeyBounds key) same_value (b.kept key e held)),
          )
      | inl miss ↦ elim (Outcome-cases (query_instance i query limit)) [
        | inl (e, bad) ↦
            rw (run_failed s now done query limit key i e named miss bad)
              (get-IsBounded s key now b, tt)
        | inr (hits, good) ↦
            let few = length-query_instance i query limit hits good in
            rw (run_new s now done query limit key i hits named miss good) (
              put-IsBounded (looked s now done query limit key i) key hits done
                  (get-IsBounded s key now b) (bounds named hits few),
              few,
            )
      ]
    ]
  ]

named_of :
    (cache_key query : Bytes) (n : ℕ)
    → is_empty (key_of cache_key query n) ≡ false
    → is_empty cache_key ≡ false
unfolding key_of
named_of [] query n h = cc
named_of (c ∷ s) query n h = refl

limit_of_key :
    (cache_key query : Bytes) (n : ℕ) (hits : List Hit)
    → is_empty cache_key ≡ false
    → KeyBounds (key_of cache_key query n) hits
    → length hits ≤ n
unfolding key_of
limit_of_key cache_key query n hits named h = h (join cache_key query) n (ground (arith, named))

-- Where every cached answer is within the limit of its key, a search with any limit, answered by
-- the cache or by the instance, returns no more hits than the limit brought into its range, and
-- keeps the cache so.
pub search-IsBounded :
    (s : Searcher) (now done : ℕ) (query : Bytes) (limit : ℤ) (cache_key : Bytes) (i : Instance)
    → IsBounded s
    → IsBounded (search s now done query limit cache_key i).1
      × Within (pos_part (normal_limit limit)) (search s now done query limit cache_key i).0
unfolding search
search-IsBounded s now done query limit cache_key i b = elim (Bool-cases (is_blank query)) [
  | inl blank ↦ rw (blank, if◌then◌else◌) (b, tt)
  | inr filled ↦
      let n = pos_part (normal_limit limit) in
      rw (filled, if◌then◌else◌)
        (search_cached-IsBounded s now done query n (key_of cache_key query n) i b
          (λ named hits few.
            KeyBounds-key_of cache_key query n hits (named_of cache_key query n named) few)
          (λ named hits bounds.
            limit_of_key cache_key query n hits (named_of cache_key query n named) bounds))
]

pub new-IsBounded : (base_url : Bytes) (timeout ttl : ℤ) → IsBounded (new base_url timeout ttl)
unfolding new
new-IsBounded base_url timeout ttl = record {
  valid = new-IsValid _ _;
  kept = AllHeld-new KeyBounds _ _;
}
