-- ===== src/Fetch/Handler.antt =====
-- internal/tools/fetch/handler.go: the tool's handler. `actor` is the ID of the actor in the
-- request's context, if there is one; the output repeats the result's fields.
use mcp_webtools.Prelude.{
  Outcome, ok, ℕ, ◌≡◌, refl, ap, ◌∙◌, inl, inr, Option, none, some, [], arith, Option-cases, ℤ,
  pos_part, Bytes,
}
use mcp_webtools.Prelude.{Outcome-cases}
use mcp_webtools.Fetch.Stream.{page_from_stream}
use mcp_webtools.Fetch.Fetcher.{
  Url, Origin, Result, FetchError, Fetcher, store_result, fetch_origin, fetch_cached, snap_key_of,
  result_key_of, check, fetch,
}

pub record FetchInput : Type 0 where
  pub url : Bytes
  pub offset : ℤ

abbrev pub cache_key_of : Option Bytes → Bytes
cache_key_of none = []
cache_key_of (some id) = id

unfoldable pub handler :
    (Bytes → Option Url)
    → ℕ
    → ℕ
    → Origin
    → Option Bytes
    → FetchInput
    → Fetcher
    → Outcome FetchError Result × Fetcher
handler parse now done origin actor given f =
    fetch parse f now done given.url given.offset (cache_key_of actor) origin

origin-anonymous :
    (f : Fetcher) (done : ℕ) (u : Url) (offset : ℕ) (origin : Origin)
    → (fetch_origin f done u offset [] [] origin).1 ≡ f
unfolding fetch_origin store_result
origin-anonymous f done u offset origin = elim (Option-cases (origin.answer u)) [
  | inl silent ↦ ground (arith, silent)
  | inr (resp, got) ↦ elim (Option-cases (page_from_stream resp.body f.max_bytes offset)) [
    | inl broken ↦ grind (arith, got, broken)
    | inr (page, read) ↦ grind (arith, got, read)
  ]
]

cached-anonymous :
    (f : Fetcher) (now done : ℕ) (u : Url) (raw_url : Bytes) (offset : ℕ) (origin : Origin)
    → fetch_cached f now done u offset
        (snap_key_of [] raw_url)
        (result_key_of [] raw_url offset)
        origin
      ≡ fetch_origin f done u offset [] [] origin
unfolding fetch_cached snap_key_of result_key_of
cached-anonymous f now done u raw_url offset origin = refl

-- A fetch without an actor leaves the fetcher as it is, and where the arguments pass the checks
-- its answer is the origin's.
pub handler-anonymous :
    (parse : Bytes → Option Url) (now done : ℕ) (origin : Origin) (given : FetchInput) (f : Fetcher)
    → ((handler parse now done origin none given f).1 ≡ f)
      × ((u : Url)
          → check parse given.url given.offset ≡ ok u
          → (handler parse now done origin none given f).0
            ≡ (fetch_origin f done u (pos_part given.offset) [] [] origin).0)
unfolding handler fetch
handler-anonymous parse now done origin given f =
    elim (Outcome-cases (check parse given.url given.offset)) [
      | inl (e, bad) ↦ (ground (arith, bad), λ u good. absurd (ground (arith, bad, good)))
      | inr (v, fine) ↦
          let same_run : handler parse now done origin none given f
              ≡ fetch_origin f done v (pos_part given.offset) [] [] origin =
            rw (fine, handler, fetch)
              (cached-anonymous f now done v given.url (pos_part given.offset) origin) in
          (
            ap (λ (r : Outcome FetchError Result × Fetcher). r.1) same_run
                ∙ origin-anonymous f done v (pos_part given.offset) origin,
            λ u good.
                let e : v ≡ u = ground (arith, fine, good) in
                ap (λ (r : Outcome FetchError Result × Fetcher). r.0) same_run
                ∙ ap (λ w. (fetch_origin f done w (pos_part given.offset) [] [] origin).0) e,
          )
    ]
