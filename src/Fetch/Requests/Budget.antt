-- ===== src/Fetch/Requests/Budget.antt =====
-- The memory that the caches hold on to, however the requests interleave.
use mcp_webtools.Prelude.{
  ℕ, ◌≤◌, ◌≡◌, refl, sym, ap, subst, inl, inr, Option, arith, if◌then◌else◌, Bool-cases,
  Option-cases, length, pos_part, ℤ, Bytes, is_empty, Outcome-cases,
}
use mcp_webtools.Cache.Memory.{MemoryCache}
use mcp_webtools.Cache.Memory.Charged.{
  held_bytes, IsCharged, IsCharged-new, IsCharged-get, IsCharged-put, held_bytes_bound,
}
use mcp_webtools.Fetch.Fetcher
use mcp_webtools.Fetch.Fetcher.{Url, Result, DocEntry, Fetcher, store_result, cached, check}
use mcp_webtools.Fetch.Fetcher.Safety.{new-IsWell}
use mcp_webtools.Fetch.Requests.{
  FetchCall, call_snap_key, call_result_key, Progress, starting, result_missed, snapshot_missed,
  keeping_snapshot, keeping_result, ended, look_for_result, look_for_snapshot, keep_snapshot,
  proceed, System, run, Reach, start, later,
}
use mcp_webtools.Fetch.Requests.Well.{Reach-IsWell}

abbrev pub body_bytes : DocEntry → ℕ
body_bytes e = length e.body

abbrev pub content_bytes : Result → ℕ
content_bytes r = length r.content

-- Documents and pages are stored with their sizes, and the budget is `b`.
record Charges (b : ℕ) (f : Fetcher) : Type 0 where
  documents : IsCharged body_bytes f.snapshots
  pages : IsCharged content_bytes f.results
  budget : f.cache_budget ≡ b

IsCharged-cached {ℓ} :
    {V : Type ℓ} (weigh : V → ℕ) (key : Bytes) (now : ℕ) (c : MemoryCache V)
    → IsCharged weigh c
    → IsCharged weigh (cached key now c).0
IsCharged-cached weigh key now c h = elim (Bool-cases (is_empty key)) [
  | inl e ↦ rw (e, if◌then◌else◌) h
  | inr e ↦ rw (e, if◌then◌else◌) (IsCharged-get weigh key now c h)
]

module _ (c : FetchCall) (now b : ℕ) (f : Fetcher) (w : Charges b f) where
  look_for_result-Charges :
      (parse : Bytes → Option Url) → Charges b (look_for_result parse c now f).1
  unfolding look_for_result
  look_for_result-Charges parse = elim (Outcome-cases (check parse c.raw_url c.offset)) [
    | inl (e, bad) ↦ rw (look_for_result, bad) w
    | inr (u, good) ↦
        let next : Charges b (record f { results = (cached (call_result_key c) now f.results).0 }) =
          record {
            documents = w.documents;
            pages = IsCharged-cached content_bytes (call_result_key c) now f.results w.pages;
            budget = w.budget;
          } in
        elim (Option-cases (cached (call_result_key c) now f.results).1) [
          | inl miss ↦ rw (look_for_result, good, miss) next
          | inr (r, hit) ↦ rw (look_for_result, good, hit) next
        ]
  ]

  look_for_snapshot-Charges : (u : Url) → Charges b (look_for_snapshot c now u f).1
  unfolding look_for_snapshot
  look_for_snapshot-Charges u =
      let next : Charges b (record f { snapshots = (cached (call_snap_key c) now f.snapshots).0 }) =
        record {
          documents = IsCharged-cached body_bytes (call_snap_key c) now f.snapshots w.documents;
          pages = w.pages;
          budget = w.budget;
        } in
      elim (Option-cases (cached (call_snap_key c) now f.snapshots).1) [
        | inl miss ↦ rw (look_for_snapshot, miss) next
        | inr (e, hit) ↦ rw (look_for_snapshot, hit) next
      ]

  keep_snapshot-Charges : (e : DocEntry) → Charges b (keep_snapshot c now e f)
  unfolding keep_snapshot
  keep_snapshot-Charges e = record {
    documents = IsCharged-put body_bytes (call_snap_key c) e now f.snapshots w.documents;
    pages = w.pages;
    budget = w.budget;
  }

  store_result-Charges : (r : Result) → Charges b (store_result f now (call_result_key c) r)
  unfolding store_result
  store_result-Charges r = elim (Bool-cases (is_empty (call_result_key c))) [
    | inl e ↦ rw (e, if◌then◌else◌) w
    | inr filled ↦
        rw (filled, if◌then◌else◌)
          (record {
            documents = w.documents;
            pages = IsCharged-put content_bytes (call_result_key c) r now f.results w.pages;
            budget = w.budget;
          })
  ]

  proceed-Charges :
      (parse : Bytes → Option Url) (pc : Progress) → Charges b (proceed parse c now pc f).1
  unfolding proceed
  proceed-Charges parse starting = look_for_result-Charges parse
  proceed-Charges parse (result_missed u) = look_for_snapshot-Charges u
  proceed-Charges parse (snapshot_missed u) = w
  proceed-Charges parse (keeping_snapshot e r) = keep_snapshot-Charges e
  proceed-Charges parse (keeping_result r) = store_result-Charges r
  proceed-Charges parse (ended r) = w

Reach-Charges :
    (parse : Bytes → Option Url) (calls : ℕ → FetchCall) (b : ℕ) {f : Fetcher} {s : System}
    → Charges b f
    → Reach parse calls f s
    → Charges b s.fetcher
Reach-Charges parse calls b w (start e) = subst (λ (t : System). Charges b t.fetcher) (sym e) w
Reach-Charges parse calls b w (later {s} r (run i now e)) =
    subst (λ (t : System). Charges b t.fetcher) (sym e)
      (proceed-Charges (calls i) now b s.fetcher (Reach-Charges parse calls b w r) parse (s.pc i))

new-Charges :
    (timeout max_bytes budget ttl : ℤ)
    → Charges
        (Fetcher.new timeout max_bytes budget ttl).cache_budget
        (Fetcher.new timeout max_bytes budget ttl)
unfolding Fetcher.new
new-Charges timeout max_bytes budget ttl = record {
  documents = IsCharged-new body_bytes _ _;
  pages = IsCharged-new content_bytes _ _;
  budget = refl;
}

-- However many fetches run at the same time on a new fetcher, and in whatever order their steps
-- interleave, the bodies of the documents that its snapshots hold add up to at most the cache
-- budget, and so do the contents of the pages that its results hold.
pub Reach-held_bytes :
    (parse : Bytes → Option Url) (calls : ℕ → FetchCall) (timeout max_bytes budget ttl : ℤ)
    {s : System}
    → Reach parse calls (Fetcher.new timeout max_bytes budget ttl) s
    → let limit = (Fetcher.new timeout max_bytes budget ttl).cache_budget in
      (held_bytes body_bytes s.fetcher.snapshots ≤ limit)
      × (held_bytes content_bytes s.fetcher.results ≤ limit)
Reach-held_bytes parse calls timeout max_bytes budget ttl {s} reached =
    let w = Reach-IsWell parse calls (new-IsWell timeout max_bytes budget ttl) reached in
    let k = Reach-Charges parse calls _ (new-Charges timeout max_bytes budget ttl) reached in
    (
      omega (
        arith,
        held_bytes_bound body_bytes s.fetcher.snapshots w.snapshots_valid k.documents,
        ap pos_part w.snapshots_budget,
        k.budget,
      ),
      omega (
        arith,
        held_bytes_bound content_bytes s.fetcher.results w.results_valid k.pages,
        ap pos_part w.results_budget,
        k.budget,
      ),
    )
