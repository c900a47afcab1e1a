-- ===== src/Search/Isolated.antt =====
-- What a search leaves of the entries of other callers.
use mcp_webtools.Prelude.{
  ℕ, ◌≡◌, refl, sym, ◌≢◌, ◌⊎◌, inl, inr, false, none, [], ◌∷◌, if◌then◌else◌, Bool-cases,
  Option-cases, ℤ, pos_part, Bytes, is_empty, is_blank, Outcome-cases,
}
use mcp_webtools.Cache.Memory
use mcp_webtools.Cache.Memory.{MemoryCache}
use mcp_webtools.Cache.Memory.Invariant.{IsValid}
use mcp_webtools.Cache.Memory.Frame.{Touched, Touched-refl, Touched-trans, Touched-put, Touched-get}
use mcp_webtools.Cache.Table.{lookup}
use mcp_webtools.Keys.{join, format_int}
use mcp_webtools.Keys.Decimal.{HasNoNul, format_int-HasNoNul}
use mcp_webtools.Keys.Split.{join-injective, join-injective_last}
use mcp_webtools.Search.{
  Instance, Searcher, normal_limit, key_of, query_instance, size_of, search_cached, search,
}
use mcp_webtools.Search.Runs.{run_anonymous, run_hit, run_failed, run_new}

search_cached-Touched :
    (s : Searcher) (now done : ℕ) (query : Bytes) (limit : ℕ) (key : Bytes) (i : Instance)
    → IsValid s.results
    → Touched key s.results (search_cached s now done query limit key i).1.results
search_cached-Touched s now done query limit key i valid =
    let looked = Touched-get key now valid in
    elim (Bool-cases (is_empty key)) [
      | inl anonymous ↦
          rw (run_anonymous s now done query limit key i anonymous) (Touched-refl key valid)
      | inr named ↦ elim (Option-cases (Memory.get key now s.results).1) [
        | inr (hits, hit) ↦ rw (run_hit s now done query limit key i hits named hit) looked
        | inl miss ↦ elim (Outcome-cases (query_instance i query limit)) [
          | inl (e, bad) ↦ rw (run_failed s now done query limit key i e named miss bad) looked
          | inr (hits, good) ↦
              rw (run_new s now done query limit key i hits named miss good)
                (Touched-trans key looked (Touched-put key hits (size_of hits) done looked.valid))
        ]
      ]
    ]

keys_differ :
    (a b query other_query : Bytes) (m n : ℕ)
    → a ≢ b
    → is_empty b ≡ false
    → HasNoNul a
    → HasNoNul b
    → key_of b other_query n ≢ key_of a query m
unfolding key_of
keys_differ a [] query other_query m n apart named plain_a plain_b e = cc
keys_differ [] (d ∷ b) query other_query m n apart named plain_a plain_b e = cc
keys_differ (c ∷ a) (d ∷ b) query other_query m n apart named plain_a plain_b e =
    let (same_front, _) =
      join-injective_last (join (d ∷ b) other_query) (join (c ∷ a) query) (format_int n)
        (format_int m) (format_int-HasNoNul n) (format_int-HasNoNul m) e in
    apart (sym (join-injective (d ∷ b) (c ∷ a) other_query query plain_b plain_a same_front).0)

-- Where the cache of the searcher is valid, a search for one of two different caller IDs without
-- NUL, the other of which is not empty, leaves every entry of the other as it was, or evicted.
pub search-isolates :
    (s : Searcher) (now done : ℕ) (query : Bytes) (limit : ℤ) (cache_key : Bytes) (i : Instance)
    (other other_query : Bytes) (n : ℕ)
    → IsValid s.results
    → cache_key ≢ other
    → is_empty other ≡ false
    → HasNoNul cache_key
    → HasNoNul other
    → let after = (search s now done query limit cache_key i).1 in
      (lookup (key_of other other_query n) after.results.items ≡ none)
      ⊎ (lookup (key_of other other_query n) after.results.items
          ≡ lookup (key_of other other_query n) s.results.items)
unfolding search
search-isolates s now done query limit cache_key i other other_query n valid apart named plain
      other_plain =
    elim (Bool-cases (is_blank query)) [
      | inl blank ↦ rw (blank, if◌then◌else◌) (inr refl)
      | inr filled ↦
          let m = pos_part (normal_limit limit) in
          rw (filled, if◌then◌else◌)
            ((search_cached-Touched s now done query m (key_of cache_key query m) i valid).others
              (key_of other other_query n)
              (keys_differ cache_key other query other_query m n apart named plain other_plain))
    ]
