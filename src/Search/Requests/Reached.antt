-- ===== src/Search/Requests/Reached.antt =====
-- What holds however the searches interleave.
use mcp_webtools.Prelude.{
  ok, ℕ, ◌≡◌, refl, sym, subst, inl, inr, some, List, arith, ◌==◌, if◌then◌else◌, ==_iff,
  Bool-cases, Option-cases, ℤ, Bytes, is_empty, is_blank,
}
use mcp_webtools.Cache.Memory.Contents.{AllHeld, AllHeld-new, AllHeld-get, AllHeld-put, held_of_get}
use mcp_webtools.Cache.Memory.Invariant.{IsValid, new-IsValid, put-IsValid, get-IsValid}
use mcp_webtools.Keys.Decimal.{HasNoNul}
use mcp_webtools.Search
use mcp_webtools.Search.{
  Hit, Instance, SearchError, Searcher, normal_limit, key_of, query_instance, store, size_of,
}
use mcp_webtools.Search.Requests.{
  SearchCall, call_key, Progress, starting, missed, keeping, ended, looked_up, look_for_hits,
  proceed, System, step, run, Reach, start, later,
}
use mcp_webtools.Search.Requests.Sources.{
  Answered, Held, Good, queried-Good, named_of_key, Held-own,
}

module _ (calls : ℕ → SearchCall) where
  record Kept (s : Searcher) : Type 0 where
    valid : IsValid s.results
    held : AllHeld (Held calls) s.results

  store-Kept :
      (i now : ℕ) (s : Searcher) (hits : List Hit)
      → Kept s
      → Answered calls i hits
      → Kept (store s now (call_key (calls i)) hits)
  unfolding store
  store-Kept i now s hits k a = elim (Bool-cases (is_empty (call_key (calls i)))) [
    | inl none_given ↦ rw (none_given, if◌then◌else◌) k
    | inr filled ↦
        rw (filled, if◌then◌else◌)
          (record {
            valid = put-IsValid _ hits _ now s.results k.valid;
            held =
                AllHeld-put (Held calls) _ hits _ now s.results k.valid
                  (i, refl, named_of_key calls i filled, a) k.held;
          })
  ]

  looked_up-Kept :
      (i now : ℕ) (s : Searcher)
      → Kept s
      → Kept (record s { results = (looked_up (call_key (calls i)) now s.results).0 })
  looked_up-Kept i now s k = elim (Bool-cases (is_empty (call_key (calls i)))) [
    | inl none_given ↦ rw (none_given, if◌then◌else◌) k
    | inr filled ↦
        rw (filled, if◌then◌else◌)
          (record {
            valid = get-IsValid _ now s.results k.valid;
            held = AllHeld-get (Held calls) _ now s.results k.valid k.held;
          })
  ]

  module _ (plain : (i : ℕ) → HasNoNul (calls i).cache_key) where
    hit-Answered :
        (i now : ℕ) (s : Searcher) (hits : List Hit)
        → Kept s
        → (looked_up (call_key (calls i)) now s.results).1 ≡ some hits
        → Answered calls i hits
    hit-Answered i now s hits k h = elim (Bool-cases (is_empty (call_key (calls i)))) [
      | inl none_given ↦ absurd (ground (arith, none_given, h))
      | inr filled ↦
          let (entry, held, same_value) =
            held_of_get (call_key (calls i)) now s.results hits (ground (arith, filled, h)) in
          Held-own calls plain i hits (named_of_key calls i filled) (
            subst (λ x. Held calls (call_key (calls i)) x) same_value
              (k.held (call_key (calls i)) entry held))
    ]

    module _ (i now : ℕ) (s : Searcher) (k : Kept s) where
      abbrev Both : Progress × Searcher → Type 0
      Both (p, t) = Kept t × Good calls i p

      look_for_hits-Both : Both (look_for_hits (calls i) now s)
      unfolding look_for_hits
      look_for_hits-Both = elim (Bool-cases (is_blank (calls i).query)) [
        | inl blank ↦ rw (Both, Good, look_for_hits, blank) (k, tt)
        | inr filled ↦ elim (Option-cases (looked_up (call_key (calls i)) now s.results).1) [
          | inl miss ↦
              rw (Both, Good, look_for_hits, filled, miss) (looked_up-Kept i now s k, filled)
          | inr (hits, hit) ↦
              rw (Both, Good, look_for_hits, filled, hit)
                (looked_up-Kept i now s k, hit-Answered i now s hits k hit)
        ]
      ]

      proceed-Both : (p : Progress) → Good calls i p → Both (proceed (calls i) now p s)
      unfolding proceed
      proceed-Both starting g = look_for_hits-Both
      proceed-Both missed g = (k, queried-Good calls i g)
      proceed-Both (keeping hits) g = (store-Kept i now s hits k g, g)
      proceed-Both (ended r) g = (k, g)

    abbrev Sound : System → Type 0
    Sound s = Kept s.searcher × ((i : ℕ) → Good calls i (s.pc i))

    step-Sound : (i now : ℕ) (s : System) → Sound s → Sound (step calls i now s)
    step-Sound i now s (k, goods) =
        let (k', good) = proceed-Both i now s.searcher k (s.pc i) (goods i) in
        (
          k',
          λ j. elim (Bool-cases (i == j)) [
            | inl here ↦
                rw (here, if◌then◌else◌)
                  (subst (λ (n : ℕ). Good calls n (proceed (calls i) now (s.pc i) s.searcher).0)
                    ((==_iff i j).0 here) good)
            | inr other ↦ rw (other, if◌then◌else◌) (goods j)
          ],
        )

    Reach-Sound : {g : Searcher} {s : System} → Kept g → Reach calls g s → Sound s
    Reach-Sound k (start e) = subst Sound (sym e) (k, λ i. tt)
    Reach-Sound k (later {s} r (run i now e)) =
        subst Sound (sym e) (step-Sound i now s (Reach-Sound k r))

  new-Kept : (base_url : Bytes) (timeout ttl : ℤ) → Kept (Search.new base_url timeout ttl)
  unfolding Search.new
  new-Kept base_url timeout ttl = record {
    valid = new-IsValid _ _;
    held = AllHeld-new (Held calls) _ _;
  }

  -- However many searches run at the same time on a new searcher, and in whatever order their
  -- steps interleave, where no caller's ID holds a NUL, a search that ends with hits shows what
  -- the instance answered to a search of the same caller for the same query, which is not blank,
  -- with the same limit; a search without a caller's ID shows the answer to itself.
  pub Reach-Answered :
      (base_url : Bytes) (timeout ttl : ℤ) {s : System} (i : ℕ) (hits : List Hit)
      → ((j : ℕ) → HasNoNul (calls j).cache_key)
      → Reach calls (Search.new base_url timeout ttl) s
      → s.pc i ≡ ended (ok hits)
      → Answered calls i hits
  Reach-Answered base_url timeout ttl i hits plain reached done =
      subst (Good calls i) done ((Reach-Sound plain (new-Kept base_url timeout ttl) reached).1 i)
