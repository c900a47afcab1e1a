-- ===== src/Fetch/Requests/Reached.antt =====
-- What holds however the requests interleave.
use mcp_webtools.Prelude.{
  ok, ℕ, ◌≡◌, sym, subst, inl, inr, Option, ◌==◌, if◌then◌else◌, ==_iff, Bool-cases, ℤ, Bytes,
}
use mcp_webtools.Keys.Decimal.{HasNoNul}
use mcp_webtools.Fetch.Fetcher
use mcp_webtools.Fetch.Fetcher.{
  Url, Result, DocEntry, FetchError, Fetcher, result_of, page_result, store_result, snap_key_of,
  result_key_of, cached, check,
}
use mcp_webtools.Fetch.Requests.{FetchCall, ended, proceed, System, step, run, Reach, start, later}
use mcp_webtools.Fetch.Requests.Sources.{Sourced, Good}
use mcp_webtools.Fetch.Requests.Kept.{Kept, new-Kept, proceed-Both}

module _ (parse : Bytes → Option Url) (calls : ℕ → FetchCall) where
  abbrev Sound : System → Type 0
  Sound s = Kept parse calls s.fetcher × ((i : ℕ) → Good parse calls i (s.pc i))

  module _ (plain : (i : ℕ) → HasNoNul (calls i).cache_key) where
    step-Sound : (i now : ℕ) (s : System) → Sound s → Sound (step parse calls i now s)
    step-Sound i now s (k, goods) =
        let (k', good) = proceed-Both parse calls plain i now s.fetcher k (s.pc i) (goods i) in
        (
          k',
          λ j. elim (Bool-cases (i == j)) [
            | inl here ↦
                let e : i ≡ j = (==_iff i j).0 here in
                rw (here, if◌then◌else◌)
                  (subst
                    (λ (n : ℕ).
                      Good parse calls n (proceed parse (calls i) now (s.pc i) s.fetcher).0)
                    e good)
            | inr other ↦ rw (other, if◌then◌else◌) (goods j)
          ],
        )

    Reach-Sound : {f : Fetcher} {s : System} → Kept parse calls f → Reach parse calls f s → Sound s
    Reach-Sound k (start e) = subst Sound (sym e) (k, λ i. tt)
    Reach-Sound k (later {s} r (run i now e)) =
        subst Sound (sym e) (step-Sound i now s (Reach-Sound k r))

  -- However many fetches run at the same time on a new fetcher, and in whatever order their steps
  -- interleave, where no caller's ID holds a NUL, a fetch that ends with a page shows a slice,
  -- from its own offset on, of the body of a successful response that an origin gave to a request
  -- of the same caller for the same URL, with that response's status and content type; a fetch
  -- without a caller's ID shows its own origin's.
  pub Reach-Sourced :
      (timeout max_bytes budget ttl : ℤ) {s : System} (i : ℕ) (r : Result)
      → ((j : ℕ) → HasNoNul (calls j).cache_key)
      → Reach parse calls (Fetcher.new timeout max_bytes budget ttl) s
      → s.pc i ≡ ended (ok r)
      → Sourced parse calls i r
  Reach-Sourced timeout max_bytes budget ttl i r plain reached done =
      subst (Good parse calls i) done
        ((Reach-Sound plain (new-Kept parse calls timeout max_bytes budget ttl) reached).1 i)
