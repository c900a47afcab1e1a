-- ===== src/Fetch/Requests/Well.antt =====
-- The caches stay well formed however the requests interleave.
use mcp_webtools.Prelude.{
  ℕ, sym, ◌∙◌, subst, inl, inr, Option, if◌then◌else◌, Bool-cases, Option-cases, Bytes, is_empty,
  Outcome-cases,
}
use mcp_webtools.Cache.Memory.{MemoryCache}
use mcp_webtools.Cache.Memory.Frame.{Touched, Touched-put}
use mcp_webtools.Fetch.Fetcher.{Url, Result, DocEntry, Fetcher, store_result, cached, check}
use mcp_webtools.Fetch.Fetcher.Safety.{IsWell, Touched-cached}
use mcp_webtools.Fetch.Requests.{
  FetchCall, call_snap_key, call_result_key, Progress, starting, result_missed, snapshot_missed,
  keeping_snapshot, keeping_result, ended, look_for_result, look_for_snapshot, keep_snapshot,
  proceed, System, run, Reach, start, later,
}

pub with_snapshots :
    (f : Fetcher) (k : Bytes) (c : MemoryCache DocEntry)
    → IsWell f
    → Touched k f.snapshots c
    → IsWell (record f { snapshots = c })
with_snapshots f k c w t = record {
  snapshots_valid = t.valid;
  results_valid = w.results_valid;
  snapshots_budget = t.same_max ∙ w.snapshots_budget;
  results_budget = w.results_budget;
  page_fits = w.page_fits;
  page_pos = w.page_pos;
}

pub with_results :
    (f : Fetcher) (k : Bytes) (c : MemoryCache Result)
    → IsWell f
    → Touched k f.results c
    → IsWell (record f { results = c })
with_results f k c w t = record {
  snapshots_valid = w.snapshots_valid;
  results_valid = t.valid;
  snapshots_budget = w.snapshots_budget;
  results_budget = t.same_max ∙ w.results_budget;
  page_fits = w.page_fits;
  page_pos = w.page_pos;
}

module _ (c : FetchCall) (now : ℕ) (f : Fetcher) (w : IsWell f) where
  look_for_result-IsWell : (parse : Bytes → Option Url) → IsWell (look_for_result parse c now f).1
  unfolding look_for_result
  look_for_result-IsWell parse = elim (Outcome-cases (check parse c.raw_url c.offset)) [
    | inl (e, bad) ↦ rw (look_for_result, bad) w
    | inr (u, good) ↦
        let next = with_results f _ _ w (Touched-cached _ now w.results_valid) in
        elim (Option-cases (cached (call_result_key c) now f.results).1) [
          | inl miss ↦ rw (look_for_result, good, miss) next
          | inr (r, hit) ↦ rw (look_for_result, good, hit) next
        ]
  ]

  look_for_snapshot-IsWell : (u : Url) → IsWell (look_for_snapshot c now u f).1
  unfolding look_for_snapshot
  look_for_snapshot-IsWell u =
      let next = with_snapshots f _ _ w (Touched-cached _ now w.snapshots_valid) in
      elim (Option-cases (cached (call_snap_key c) now f.snapshots).1) [
        | inl miss ↦ rw (look_for_snapshot, miss) next
        | inr (e, hit) ↦ rw (look_for_snapshot, hit) next
      ]

  keep_snapshot-IsWell : (e : DocEntry) → IsWell (keep_snapshot c now e f)
  unfolding keep_snapshot
  keep_snapshot-IsWell e = with_snapshots f _ _ w (Touched-put _ e _ now w.snapshots_valid)

  store_result-IsWell : (r : Result) → IsWell (store_result f now (call_result_key c) r)
  unfolding store_result
  store_result-IsWell r = elim (Bool-cases (is_empty (call_result_key c))) [
    | inl e ↦ rw (e, if◌then◌else◌) w
    | inr filled ↦
        rw (filled, if◌then◌else◌) (with_results f _ _ w (Touched-put _ r _ now w.results_valid))
  ]

  proceed-IsWell :
      (parse : Bytes → Option Url) (pc : Progress) → IsWell (proceed parse c now pc f).1
  unfolding proceed
  proceed-IsWell parse starting = look_for_result-IsWell parse
  proceed-IsWell parse (result_missed u) = look_for_snapshot-IsWell u
  proceed-IsWell parse (snapshot_missed u) = w
  proceed-IsWell parse (keeping_snapshot e r) = keep_snapshot-IsWell e
  proceed-IsWell parse (keeping_result r) = store_result-IsWell r
  proceed-IsWell parse (ended r) = w

-- However fetches interleave on a well-formed fetcher, both caches stay valid and within the
-- fetcher's budget, and a page is no larger than the budget.
pub Reach-IsWell :
    (parse : Bytes → Option Url) (calls : ℕ → FetchCall) {f : Fetcher} {s : System}
    → IsWell f
    → Reach parse calls f s
    → IsWell s.fetcher
Reach-IsWell parse calls w (start e) = subst (λ (t : System). IsWell t.fetcher) (sym e) w
Reach-IsWell parse calls w (later {s} r (run i now e)) =
    subst (λ (t : System). IsWell t.fetcher) (sym e)
      (proceed-IsWell (calls i) now s.fetcher (Reach-IsWell parse calls w r) parse (s.pc i))
