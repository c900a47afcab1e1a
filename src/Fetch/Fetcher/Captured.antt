-- ===== src/Fetch/Fetcher/Captured.antt =====
-- What a first fetch leaves in the caches, and what a later fetch finds there.
use mcp_webtools.Prelude.{
  ok, ℕ, ◌+◌, ◌-◌, ◌≤◌, ◌<◌, ◌≡◌, refl, ap, ◌∙◌, inl, inr, true, false, ◌&&◌, ◌||◌, none, some, [],
  ◌∷◌, ◌++◌, arith, if◌then◌else◌, Bool-cases, length, take, drop, take-append-drop, length-take,
  length-drop, take_of_length-le, take_add, ℤ, pos, sub_ℕ, ltb_ℤ, leb_ℤ, Bytes, is_empty,
}
use mcp_webtools.Cache.Memory
use mcp_webtools.Cache.Memory.{MemoryCache}
use mcp_webtools.Cache.Memory.Invariant.{get_miss}
use mcp_webtools.Cache.Memory.Reads.{get-put}
use mcp_webtools.Cache.Table.{lookup}
use mcp_webtools.Fetch.Stream.{skip, capture_rest}
use mcp_webtools.Fetch.Stream.Match.{live, read_chunk-live}
use mcp_webtools.Fetch.Stream.Capture.{capture_rest_lem}
use mcp_webtools.Fetch.Fetcher.{
  Url, Response, Origin, Result, Fetcher, fetch_cached, fetch_origin, capture_and_page, page_result,
  snap_key_of, result_key_of, cached,
}
use mcp_webtools.Fetch.Fetcher.Safety.{IsWell}

pub keys_named :
    (cache_key raw_url : Bytes) (offset : ℕ)
    → is_empty cache_key ≡ false
    → (is_empty (snap_key_of cache_key raw_url) ≡ false)
      × (is_empty (result_key_of cache_key raw_url offset) ≡ false)
unfolding snap_key_of result_key_of
keys_named [] raw_url offset h = cc
keys_named (x ∷ cache_key) raw_url offset h = (refl, refl)

cached_miss {ℓ} :
    {V : Type ℓ} (k : Bytes) (now : ℕ) (c : MemoryCache V)
    → lookup k c.items ≡ none
    → cached k now c ≡ (c, none)
cached_miss k now c h = elim (Bool-cases (is_empty k)) [
  | inl e ↦ rw (e, if◌then◌else◌)
  | inr e ↦ rw (e, if◌then◌else◌) (get_miss k now c h)
]

-- An answer whose body ends cleanly.
abbrev pub answered : ℕ → Bytes → ℤ → Bytes → Response
answered status content_type content_length body = record {
  status_code = status;
  content_type = content_type;
  content_length = content_length;
  body = live body;
}

module _ (f : Fetcher) (done : ℕ) (u : Url) (status : ℕ) (content_type : Bytes) where
  -- The fetcher with a snapshot of `body` under `key`.
  abbrev pub with_snapshot : Bytes → Bytes → Fetcher
  with_snapshot key body = record f {
    snapshots =
        Memory.put key (record { body = body; status_code = status; content_type = content_type })
          (length body) done f.snapshots;
  }

  module _ (content_length : ℤ) (body : Bytes) (key : Bytes) where
    abbrev pub page : Bytes
    page = take (f.max_bytes + 1) body

    -- What the capture makes of a body, if the probe lets it pass.
    capture_passed :
        (rest : Bytes)
        → capture_rest true (skip (f.max_bytes + 1) (live body)) (f.cache_budget - length page)
          ≡ (rest, true)
        → length (page ++ rest) ≤ f.cache_budget
        → capture_and_page f done u (answered status content_type content_length body) true key ≡ (
          ok (page_result f u status content_type (page ++ rest) 0, true),
          with_snapshot key (page ++ rest),
        )
    unfolding capture_and_page
    capture_passed rest e h = ground (arith, read_chunk-live body f.max_bytes 0, e)

    pub capture_whole :
        length body ≤ f.cache_budget
        → capture_and_page f done u (answered status content_type content_length body) true key
          ≡ (ok (page_result f u status content_type body 0, true), with_snapshot key body)
    capture_whole h =
        let whole : page ++ drop (f.max_bytes + 1) body ≡ body =
          take-append-drop (f.max_bytes + 1) body in
        let rest : capture_rest true (skip (f.max_bytes + 1) (live body))
              (f.cache_budget - length page)
            ≡ (drop (f.max_bytes + 1) body, true) =
          capture_rest_lem (skip (f.max_bytes + 1) (live body)) (f.cache_budget - length page)
          ∙ ground (
            arith,
            take_of_length-le (f.cache_budget - length page) (drop (f.max_bytes + 1) body),
            length-drop (f.max_bytes + 1) body,
            length-take (f.max_bytes + 1) body,
          ) in
        rw whole at (capture_passed (drop (f.max_bytes + 1) body) rest (rw whole h))

    -- One byte more than the budget: the snapshot lacks the last one.
    pub capture_short :
        length body ≡ f.cache_budget + 1
        → f.max_bytes < f.cache_budget
        → capture_and_page f done u (answered status content_type content_length body) true key ≡ (
          ok (page_result f u status content_type (take f.cache_budget body) 0, true),
          with_snapshot key (take f.cache_budget body),
        )
    capture_short h k =
        let paged : length page ≡ f.max_bytes + 1 =
          omega (arith, length-take (f.max_bytes + 1) body) in
        let limit : ℕ = f.cache_budget - length page in
        let size : f.max_bytes + 1 + limit ≡ f.cache_budget = omega (arith, paged) in
        let short : page ++ take limit (drop (f.max_bytes + 1) body) ≡ take f.cache_budget body =
          take_add (f.max_bytes + 1) limit body ∙ ap (λ (n : ℕ). take n body) size in
        let rest : capture_rest true (skip (f.max_bytes + 1) (live body)) limit
            ≡ (take limit (drop (f.max_bytes + 1) body), true) =
          capture_rest_lem (skip (f.max_bytes + 1) (live body)) limit
          ∙ ground (arith, length-drop (f.max_bytes + 1) body, paged) in
        rw short at (
          capture_passed (take limit (drop (f.max_bytes + 1) body)) rest
            (rw short (omega (arith, length-take f.cache_budget body))))

  -- The first fetch of a document, with nothing cached for it.
  module _ (sk rk : Bytes) (now : ℕ) (named : is_empty sk ≡ false)
      (no_result : lookup rk f.results.items ≡ none)
      (no_snapshot : lookup sk f.snapshots.items ≡ none) where
    pub first_fetch :
        (origin : Origin) (resp : Response)
        → origin.answer u ≡ some resp
        → origin.in_time ≡ true
        → (200 ≤ resp.status_code) × (resp.status_code ≤ 299)
        → (leb_ℤ resp.content_length (pos 0) || leb_ℤ resp.content_length (pos f.cache_budget))
          ≡ true
        → {r : Result} {g : Fetcher} → capture_and_page f done u resp true sk ≡ (ok (r, true), g)
        → fetch_cached f now done u 0 sk rk origin ≡ (ok r, g)
    unfolding fetch_cached fetch_origin
    first_fetch origin resp answers on_time good sized c = ground (
      arith,
      cached_miss rk now f.results no_result,
      cached_miss sk now f.snapshots no_snapshot,
      c,
      named,
    )

    -- A later fetch of a document with a snapshot: the origin is not asked.
    pub later_fetch :
        (kept : Bytes) (later done' offset : ℕ) (rk' : Bytes) (origin : Origin)
        → IsWell f
        → length kept ≤ f.cache_budget
        → lookup rk' f.results.items ≡ none
        → (ltb_ℤ (pos 0) f.snapshots.ttl && ltb_ℤ f.snapshots.ttl (sub_ℕ later done)) ≡ false
        → (fetch_cached (with_snapshot sk kept) later done' u offset sk rk' origin).0
          ≡ ok (page_result f u status content_type kept offset)
    unfolding fetch_cached page_result
    later_fetch kept later done' offset rk' origin w fits none_yet alive = ground (
      arith,
      cached_miss rk' later f.results none_yet,
      get-put sk (record { body = kept; status_code = status; content_type = content_type })
          (length kept) done f.snapshots w.snapshots_valid w.snapshots_budget later,
      named,
      alive,
    )
