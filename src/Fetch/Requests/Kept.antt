-- ===== src/Fetch/Requests/Kept.antt =====
-- What a step of one request keeps.
use mcp_webtools.Prelude.{
  ok, ℕ, ◌≡◌, refl, subst, inl, inr, false, Option, some, arith, if◌then◌else◌, Bool-cases,
  Option-cases, ℤ, Bytes, is_empty, Outcome-cases,
}
use mcp_webtools.Cache.Memory.{MemoryCache}
use mcp_webtools.Cache.Memory.Contents.{AllHeld, AllHeld-new, AllHeld-get, AllHeld-put, held_of_get}
use mcp_webtools.Cache.Memory.Frame.{Touched-put}
use mcp_webtools.Cache.Memory.Invariant.{IsValid}
use mcp_webtools.Keys.Decimal.{HasNoNul}
use mcp_webtools.Fetch.Fetcher
use mcp_webtools.Fetch.Fetcher.{
  Url, Result, DocEntry, FetchError, Fetcher, result_of, page_result, store_result, snap_key_of,
  result_key_of, cached, check,
}
use mcp_webtools.Fetch.Fetcher.Safety.{IsWell, Touched-cached, new-IsWell}
use mcp_webtools.Fetch.Requests.{
  FetchCall, call_snap_key, call_result_key, Progress, starting, result_missed, snapshot_missed,
  keeping_snapshot, keeping_result, ended, look_for_result, look_for_snapshot, keep_snapshot,
  proceed,
}
use mcp_webtools.Fetch.Requests.Well.{with_snapshots, with_results}
use mcp_webtools.Fetch.Requests.Sources.{
  Sourced, Document, HeldDocument, HeldResult, Good, Document-page, HeldDocument-own,
  HeldResult-own,
}
use mcp_webtools.Fetch.Requests.Sent.{named_of_snap_key, sent-Good}

module _ {ℓ κ} {V : Type ℓ} (P : Bytes → V → Type κ) where
  AllHeld-cached :
      (key : Bytes) (now : ℕ) (c : MemoryCache V)
      → IsValid c
      → AllHeld P c
      → AllHeld P (cached key now c).0
  AllHeld-cached key now c h all = elim (Bool-cases (is_empty key)) [
    | inl e ↦ rw (e, if◌then◌else◌) all
    | inr e ↦ rw (e, if◌then◌else◌) (AllHeld-get P key now c h all)
  ]

  -- A value that is found is held under the key, which is not empty.
  held_of_cached :
      (key : Bytes) (now : ℕ) (c : MemoryCache V) (v : V)
      → AllHeld P c
      → (cached key now c).1 ≡ some v
      → (is_empty key ≡ false) × P key v
  held_of_cached key now c v all h = elim (Bool-cases (is_empty key)) [
    | inl e ↦ absurd (ground (arith, e, h))
    | inr e ↦
        let (entry, held, same_value) = held_of_get key now c v (ground (arith, e, h)) in
        (e, subst (λ x. P key x) same_value (all key entry held))
  ]

named_of_result_key :
    (c : FetchCall) → is_empty (call_result_key c) ≡ false → is_empty c.cache_key ≡ false
unfolding result_key_of
named_of_result_key c h = elim (Bool-cases (is_empty c.cache_key)) [
  | inl anonymous ↦ absurd (ground (arith, anonymous))
  | inr named ↦ named
]

module _ (parse : Bytes → Option Url) (calls : ℕ → FetchCall) where
  -- The fetcher's caches are well formed and hold only what requests with their keys stored.
  pub record Kept (f : Fetcher) : Type 0 where
    pub well : IsWell f
    pub documents : AllHeld (HeldDocument parse calls) f.snapshots
    pub results : AllHeld (HeldResult parse calls) f.results

  module _ (plain : (i : ℕ) → HasNoNul (calls i).cache_key) (i now : ℕ) (f : Fetcher)
      (k : Kept f) where
    looked_results :
        Kept (record f { results = (cached (call_result_key (calls i)) now f.results).0 })
    looked_results = record {
      well = with_results f _ _ k.well (Touched-cached _ now k.well.results_valid);
      documents = k.documents;
      results = AllHeld-cached _ _ now f.results k.well.results_valid k.results;
    }

    looked_snapshots :
        Kept (record f { snapshots = (cached (call_snap_key (calls i)) now f.snapshots).0 })
    looked_snapshots = record {
      well = with_snapshots f _ _ k.well (Touched-cached _ now k.well.snapshots_valid);
      documents = AllHeld-cached _ _ now f.snapshots k.well.snapshots_valid k.documents;
      results = k.results;
    }

    abbrev pub Both : Progress × Fetcher → Type 0
    Both (pc, g) = Kept g × Good parse calls i pc

    check-parsed :
        (raw_url : Bytes) (offset : ℤ) (u : Url)
        → check parse raw_url offset ≡ ok u
        → parse raw_url ≡ some u
    unfolding check
    check-parsed raw_url offset u h = elim (Option-cases (parse raw_url)) [
      | inl bad ↦ absurd (grind (arith, bad, h))
      | inr (v, good) ↦ grind (arith, good, h)
    ]

    look_for_result-Both : Both (look_for_result parse (calls i) now f)
    unfolding look_for_result
    look_for_result-Both = elim (Outcome-cases (check parse (calls i).raw_url (calls i).offset)) [
      | inl (e, bad) ↦ rw (Both, Good, look_for_result, bad) (k, tt)
      | inr (u, good) ↦
          let parsed = check-parsed (calls i).raw_url (calls i).offset u good in
          elim (Option-cases (cached (call_result_key (calls i)) now f.results).1) [
            | inl miss ↦ rw (Both, Good, look_for_result, good, miss) (looked_results, parsed)
            | inr (r, hit) ↦
                let (named, held) = held_of_cached _ _ now f.results r k.results hit in
                rw (Both, Good, look_for_result, good, hit)
                  (
                    looked_results,
                    HeldResult-own parse calls plain i r (named_of_result_key (calls i) named) held,
                  )
          ]
    ]

    look_for_snapshot-Both :
        (u : Url) → parse (calls i).raw_url ≡ some u → Both (look_for_snapshot (calls i) now u f)
    unfolding look_for_snapshot page_result
    look_for_snapshot-Both u parsed =
        elim (Option-cases (cached (call_snap_key (calls i)) now f.snapshots).1) [
          | inl miss ↦ rw (Both, Good, look_for_snapshot, miss) (looked_snapshots, parsed)
          | inr (e, hit) ↦
              let (named, held) = held_of_cached _ _ now f.snapshots e k.documents hit in
              rw (Both, Good, look_for_snapshot, hit)
                (
                  looked_snapshots,
                  Document-page parse calls i u e f.max_bytes parsed (
                      HeldDocument-own parse calls plain i e (named_of_snap_key (calls i) named)
                        held),
                )
        ]

    keep_snapshot-Kept :
        (e : DocEntry)
        → is_empty (calls i).cache_key ≡ false
        → Document parse calls i e
        → Kept (keep_snapshot (calls i) now e f)
    unfolding keep_snapshot
    keep_snapshot-Kept e named d = record {
      well = with_snapshots f _ _ k.well (Touched-put _ e _ now k.well.snapshots_valid);
      documents =
          AllHeld-put _ _ e _ now f.snapshots k.well.snapshots_valid (i, refl, named, d)
            k.documents;
      results = k.results;
    }

    store_result-Kept :
        (r : Result)
        → Sourced parse calls i r
        → Kept (store_result f now (call_result_key (calls i)) r)
    unfolding store_result
    store_result-Kept r d = elim (Bool-cases (is_empty (call_result_key (calls i)))) [
      | inl e ↦ rw (e, if◌then◌else◌) k
      | inr filled ↦
          rw (filled, if◌then◌else◌)
            (record {
              well = with_results f _ _ k.well (Touched-put _ r _ now k.well.results_valid);
              documents = k.documents;
              results =
                  AllHeld-put _ _ r _ now f.results k.well.results_valid
                    (i, refl, named_of_result_key (calls i) filled, d) k.results;
            })
    ]

    pub proceed-Both :
        (pc : Progress) → Good parse calls i pc → Both (proceed parse (calls i) now pc f)
    unfolding proceed
    proceed-Both starting g = look_for_result-Both
    proceed-Both (result_missed u) g = look_for_snapshot-Both u g
    proceed-Both (snapshot_missed u) g = (k, sent-Good parse calls f i u g)
    proceed-Both (keeping_snapshot e r) g = (keep_snapshot-Kept e g.0 g.1, g.2)
    proceed-Both (keeping_result r) g = (store_result-Kept r g, g)
    proceed-Both (ended r) g = (k, g)

  -- A new fetcher has empty caches.
  pub new-Kept :
      (timeout max_bytes budget ttl : ℤ) → Kept (Fetcher.new timeout max_bytes budget ttl)
  unfolding Fetcher.new
  new-Kept timeout max_bytes budget ttl = record {
    well = new-IsWell timeout max_bytes budget ttl;
    documents = AllHeld-new _ _ _;
    results = AllHeld-new _ _ _;
  }
