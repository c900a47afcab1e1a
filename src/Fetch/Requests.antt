-- ===== src/Fetch/Requests.antt =====
-- `Fetch` of internal/tools/fetch/fetch.go as requests that run at the same time: each of its calls of
-- a cache is one step, under that cache's mutex, and so is the GET. Between two steps of a request
-- any steps of others may run. `Fetch/Fetcher` has the same function as one step.
pub mod Slices
pub mod Alone
pub mod Sources
pub mod Sent
pub mod Well
pub mod Kept
pub mod Budget
pub mod Reached
use mcp_webtools.Prelude.{
  Outcome, ok, err, ℕ, ◌+◌, ◌-◌, ◌≡◌, Bool, not, ◌&&◌, ◌||◌, Option, none, some, ◌++◌, ltb, leb,
  ◌==◌, if◌then◌else◌, length, ℤ, pos, pos_part, leb_ℤ, Bytes, is_empty,
}
use mcp_webtools.Cache.Memory
use mcp_webtools.Fetch.Stream.{skip, read_chunk, page_from_stream, capture_rest}
use mcp_webtools.Fetch.Fetcher.{
  Url, Response, Origin, Result, DocEntry, FetchError, no_answer, read_failed, bad_status, Fetcher,
  result_of, page_result, store_result, snap_key_of, result_key_of, cached, check,
}

-- A call of the tool, with what its GET meets where it sends one.
pub record FetchCall : Type 0 where
  pub raw_url : Bytes
  pub offset : ℤ
  pub cache_key : Bytes
  pub origin : Origin

abbrev pub call_snap_key : FetchCall → Bytes
call_snap_key c = snap_key_of c.cache_key c.raw_url

abbrev pub call_result_key : FetchCall → Bytes
call_result_key c = result_key_of c.cache_key c.raw_url (pos_part c.offset)

-- What a request does next: look into the cache of results, into that of snapshots, send the GET,
-- store what it brought.
pub data Progress : Type 0 where
  starting : Progress
  result_missed : Url → Progress
  snapshot_missed : Url → Progress
  keeping_snapshot : DocEntry → Result → Progress
  keeping_result : Result → Progress
  ended : Outcome FetchError Result → Progress

-- `captureAndPage` up to its call of the cache.
unfoldable pub captured : Fetcher → Url → Response → Bool → Progress
unfolding page_result
captured f u resp in_time = elim (read_chunk resp.body f.max_bytes 0) [
  | none ↦ ended (err read_failed)
  | some (page, _) ↦
      let (rest, complete) =
        capture_rest in_time (skip (f.max_bytes + 1) resp.body) (f.cache_budget - length page) in
      let body = page ++ rest in
      if not complete
      then keeping_result (page_result f u resp.status_code resp.content_type page 0)
      else if leb (length body) f.cache_budget
      then keeping_snapshot
          (record { body = body; status_code = resp.status_code; content_type = resp.content_type })
          (page_result f u resp.status_code resp.content_type body 0)
      else keeping_result (page_result f u resp.status_code resp.content_type body 0)
]

unfoldable pub sent : Fetcher → FetchCall → Url → Progress
unfolding result_of
sent f c u = elim (c.origin.answer u) [
  | none ↦ ended (err no_answer)
  | some resp ↦
      if ltb resp.status_code 200 || ltb 299 resp.status_code
      then ended (err (bad_status resp.status_code))
      else if not (is_empty (call_snap_key c))
          && (pos_part c.offset == 0
              && (leb_ℤ resp.content_length (pos 0)
                  || leb_ℤ resp.content_length (pos f.cache_budget)))
      then captured f u resp c.origin.in_time
      else elim (page_from_stream resp.body f.max_bytes (pos_part c.offset)) [
        | none ↦ ended (err read_failed)
        | some page ↦
            keeping_result (result_of u resp.status_code resp.content_type (pos_part c.offset) page)
      ]
]

unfoldable pub look_for_snapshot : FetchCall → ℕ → Url → Fetcher → Progress × Fetcher
unfolding page_result
look_for_snapshot c now u f =
    let (snapshots, entry) = cached (call_snap_key c) now f.snapshots in
    let next = record f { snapshots = snapshots } in
    elim entry [
      | some e ↦ (
        ended (ok (page_result f u e.status_code e.content_type e.body (pos_part c.offset))),
        next,
      )
      | none ↦ (snapshot_missed u, next)
    ]

unfoldable pub keep_snapshot : FetchCall → ℕ → DocEntry → Fetcher → Fetcher
keep_snapshot c now e f = record f {
  snapshots = Memory.put (call_snap_key c) e (length e.body) now f.snapshots;
}

module _ (parse : Bytes → Option Url) where
  unfoldable pub look_for_result : FetchCall → ℕ → Fetcher → Progress × Fetcher
  look_for_result c now f = elim (check parse c.raw_url c.offset) [
    | err e ↦ (ended (err e), f)
    | ok u ↦
        let (results, hit) = cached (call_result_key c) now f.results in
        let next = record f { results = results } in
        elim hit [ some result ↦ (ended (ok result), next) | none ↦ (result_missed u, next) ]
  ]

  -- One step of a request, at the time `now`.
  unfoldable pub proceed : FetchCall → ℕ → Progress → Fetcher → Progress × Fetcher
  unfolding look_for_result look_for_snapshot sent captured keep_snapshot
  proceed c now starting f = look_for_result c now f
  proceed c now (result_missed u) f = look_for_snapshot c now u f
  proceed c now (snapshot_missed u) f = (sent f c u, f)
  proceed c now (keeping_snapshot e r) f = (ended (ok r), keep_snapshot c now e f)
  proceed c now (keeping_result r) f = (ended (ok r), store_result f now (call_result_key c) r)
  proceed c now (ended r) f = (ended r, f)

-- The requests over one fetcher; each number names one.
pub record System : Type 0 where
  pub fetcher : Fetcher
  pub pc : ℕ → Progress

abbrev pub set_pc : ℕ → Progress → (ℕ → Progress) → ℕ → Progress
set_pc i next pc j = if i == j then next else pc j

module _ (parse : Bytes → Option Url) (calls : ℕ → FetchCall) where
  abbrev pub step : ℕ → ℕ → System → System
  step i now s = record {
    fetcher = (proceed parse (calls i) now (s.pc i) s.fetcher).1;
    pc = set_pc i (proceed parse (calls i) now (s.pc i) s.fetcher).0 s.pc;
  }

  -- The request `i` makes its next step, at any time.
  pub data Step (s : System) : System → Type 0 where
    run : (i now : ℕ) {t : System} → t ≡ step i now s → Step s t

  pub data Reach (f : Fetcher) : System → Type 0 where
    start : {s : System} → s ≡ record { fetcher = f; pc = λ i. starting } → Reach f s
    later : {s t : System} → Reach f s → Step s t → Reach f t
