-- ===== src/Search/Requests/Sources.antt =====
-- Where the hits in the cache come from.
use mcp_webtools.Prelude.{
  ok, err, ℕ, ◌≡◌, refl, sym, ◌∙◌, inl, inr, true, false, List, arith, Bool-cases, Bytes, is_empty,
  is_blank, Outcome-cases,
}
use mcp_webtools.Keys.{join, format_int}
use mcp_webtools.Keys.Decimal.{HasNoNul, format_int-HasNoNul, format_int-injective}
use mcp_webtools.Keys.Split.{join-injective, join-injective_last}
use mcp_webtools.Search.{Hit, key_of, query_instance}
use mcp_webtools.Search.Requests.{
  SearchCall, limit_of, call_key, Progress, starting, missed, keeping, ended, queried,
}

-- The hits are what the instance answered to a search of the same caller for the same query, which is
-- not blank, with the same limit. Where the caller has no ID, that is the search itself.
pub record Answered (calls : ℕ → SearchCall) (i : ℕ) (hits : List Hit) : Type 0 where
  pub source : ℕ
  pub same_caller : (calls source).cache_key ≡ (calls i).cache_key
  pub same_query : (calls source).query ≡ (calls i).query
  pub same_limit : limit_of (calls source) ≡ limit_of (calls i)
  pub own : is_empty (calls i).cache_key ≡ true → source ≡ i
  pub asked : is_blank (calls source).query ≡ false
  pub answered :
      query_instance (calls source).instance_of (calls source).query (limit_of (calls source))
      ≡ ok hits

module _ (calls : ℕ → SearchCall) where
  -- What stands under a key was stored by a request with that key.
  abbrev pub Held : Bytes → List Hit → Type 0
  Held k hits =
      (i : ℕ) × (k ≡ call_key (calls i))
      × (is_empty (calls i).cache_key ≡ false)
      × Answered calls i hits

  abbrev pub Good : ℕ → Progress → Type 0
  Good i starting = Unit {0}
  Good i missed = is_blank (calls i).query ≡ false
  Good i (keeping hits) = Answered calls i hits
  Good i (ended (err e)) = Unit {0}
  Good i (ended (ok hits)) = Answered calls i hits

  pub queried-Good : (i : ℕ) → is_blank (calls i).query ≡ false → Good i (queried (calls i))
  unfolding queried
  queried-Good i asked =
      elim (Outcome-cases
        (query_instance (calls i).instance_of (calls i).query (limit_of (calls i)))) [
          | inl (e, bad) ↦ rw (Good, bad) tt
          | inr (hits, good) ↦
              rw (Good, good)
                (record {
                  source = i;
                  same_caller = refl;
                  same_query = refl;
                  same_limit = refl;
                  own = λ e. refl;
                  asked = asked;
                  answered = good;
                })
        ]

  pub named_of_key :
      (i : ℕ) → is_empty (call_key (calls i)) ≡ false → is_empty (calls i).cache_key ≡ false
  unfolding key_of
  named_of_key i h = elim (Bool-cases (is_empty (calls i).cache_key)) [
    | inl anonymous ↦ absurd (ground (arith, anonymous))
    | inr named ↦ named
  ]

  module _ (plain : (i : ℕ) → HasNoNul (calls i).cache_key) where
    call_keys :
        (i j : ℕ)
        → is_empty (calls i).cache_key ≡ false
        → is_empty (calls j).cache_key ≡ false
        → call_key (calls i) ≡ call_key (calls j)
        → ((calls i).cache_key ≡ (calls j).cache_key)
          × ((calls i).query ≡ (calls j).query)
          × (limit_of (calls i) ≡ limit_of (calls j))
    unfolding key_of
    call_keys i j named named_j e =
        let m = limit_of (calls i) in
        let n = limit_of (calls j) in
        let (front, last) =
          join-injective_last (join (calls i).cache_key (calls i).query)
            (join (calls j).cache_key (calls j).query) (format_int m) (format_int n)
            (format_int-HasNoNul m) (format_int-HasNoNul n) (ground (arith, named, named_j, e)) in
        let (caller, query) =
          join-injective (calls i).cache_key (calls j).cache_key (calls i).query (calls j).query
            (plain i) (plain j) front in
        (caller, query, format_int-injective m n last)

    pub Held-own :
        (j : ℕ) (hits : List Hit)
        → is_empty (calls j).cache_key ≡ false
        → Held (call_key (calls j)) hits
        → Answered calls j hits
    Held-own j hits named_j (i, key, named, a) =
        let (caller, query, limit) = call_keys i j named named_j (sym key) in
        record {
          source = a.source;
          same_caller = a.same_caller ∙ caller;
          own = λ e. absurd (cc (named_j, e));
          same_query = a.same_query ∙ query;
          same_limit = a.same_limit ∙ limit;
          asked = a.asked;
          answered = a.answered;
        }
