-- ===== src/Fetch/Requests/Alone.antt =====
-- A request that nothing interrupts does what `fetch` does in one step.
use mcp_webtools.Prelude.{
  Outcome, ok, err, ℕ, ◌≡◌, inl, inr, Bool, Option, arith, if◌then◌else◌, Option-cases, pos_part,
  Bytes, Outcome-cases,
}
use mcp_webtools.Fetch.Fetcher.{
  Url, Response, Result, FetchError, Fetcher, page_result, store_result, capture_and_page,
  fetch_origin, cached, check, fetch_cached, fetch,
}
use mcp_webtools.Fetch.Requests.{
  FetchCall, call_snap_key, call_result_key, Progress, starting, ended, captured, sent,
  look_for_result, look_for_snapshot, keep_snapshot, proceed,
}

-- The steps of a request with nothing in between: it looks into the caches at `now`, and stores at
-- `done`.
unfoldable pub run_alone : (Bytes → Option Url) → FetchCall → ℕ → ℕ → Fetcher → Progress × Fetcher
unfolding proceed
run_alone parse c now done f =
    let (pc1, f1) = proceed parse c now starting f in
    let (pc2, f2) = proceed parse c now pc1 f1 in
    let (pc3, f3) = proceed parse c done pc2 f2 in proceed parse c done pc3 f3

abbrev as_step : Outcome FetchError Result × Fetcher → Progress × Fetcher
as_step (r, f) = (ended r, f)

module _ (parse : Bytes → Option Url) (c : FetchCall) (done : ℕ) (f : Fetcher) (u : Url) where
  captured-alone :
      (resp : Response) (in_time : Bool)
      → proceed parse c done (captured f u resp in_time) f ≡ (
          let (outcome, f') = capture_and_page f done u resp in_time (call_snap_key c) in
          elim outcome [
            | err e ↦ (ended (err e), f')
            | ok (result, kept) ↦ (
              ended (ok result),
              if kept then f' else store_result f' done (call_result_key c) result,
            )
          ])
  unfolding captured capture_and_page proceed keep_snapshot
  captured-alone resp in_time = ground arith

  sent-alone :
      proceed parse c done (sent f c u) f
      ≡ as_step
          (fetch_origin f done u (pos_part c.offset) (call_snap_key c) (call_result_key c) c.origin)
  unfolding sent fetch_origin proceed
  sent-alone = elim (Option-cases (c.origin.answer u)) [
    | inl silent ↦ ground (arith, silent)
    | inr (resp, answered) ↦ ground (arith, answered, captured-alone resp c.origin.in_time)
  ]

-- A fetch that no other interrupts leaves, after its four steps, the fetcher and the outcome that
-- the fetch in one step leaves.
pub run_alone-fetch :
    (parse : Bytes → Option Url) (c : FetchCall) (now done : ℕ) (f : Fetcher)
    → run_alone parse c now done f
      ≡ as_step (fetch parse f now done c.raw_url c.offset c.cache_key c.origin)
unfolding run_alone proceed page_result fetch fetch_cached look_for_result look_for_snapshot
run_alone-fetch parse c now done f = elim (Outcome-cases (check parse c.raw_url c.offset)) [
  | inl (e, bad) ↦ ground (arith, bad)
  | inr (u, good) ↦ elim (Option-cases (cached (call_result_key c) now f.results).1) [
    | inr (r, hit) ↦ ground (arith, good, hit)
    | inl miss ↦ elim (Option-cases (cached (call_snap_key c) now f.snapshots).1) [
      | inr (e, hit) ↦ ground (arith, good, miss, hit)
      | inl absent ↦
          let looked : Fetcher = record f {
            results = (cached (call_result_key c) now f.results).0;
            snapshots = (cached (call_snap_key c) now f.snapshots).0;
          } in
          ground (arith, good, miss, absent, sent-alone parse c done looked u)
    ]
  ]
]
