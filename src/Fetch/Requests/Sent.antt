-- ===== src/Fetch/Requests/Sent.antt =====
-- What a request keeps of the answer to its GET.
use mcp_webtools.Prelude.{
  ℕ, ◌+◌, ◌-◌, ◌≤◌, ◌≡◌, refl, sym, subst, inl, inr, Bool, false, not, ◌&&◌, ◌||◌, Option, some,
  ◌++◌, arith, ltb, leb, ◌==◌, if◌then◌else◌, Bool-cases, Option-cases, length, take, pos, pos_part,
  leb_ℤ, Bytes, is_empty,
}
use mcp_webtools.Fetch.Page.{Paged, page_from}
use mcp_webtools.Fetch.Stream.{skip, read_chunk, page_from_stream, capture_rest}
use mcp_webtools.Fetch.Fetcher.{Url, Response, Fetcher, result_of, page_result, snap_key_of}
use mcp_webtools.Fetch.Requests.{FetchCall, call_snap_key, captured, sent}
use mcp_webtools.Fetch.Requests.Slices.{
  Slice, page_from_front-Slice, page_from_stream-Slice, captured_front,
}
use mcp_webtools.Fetch.Requests.Sources.{Answer, Answer-self, Sourced, Good}

pub named_of_snap_key :
    (c : FetchCall) → is_empty (call_snap_key c) ≡ false → is_empty c.cache_key ≡ false
unfolding snap_key_of
named_of_snap_key c h = elim (Bool-cases (is_empty c.cache_key)) [
  | inl anonymous ↦ absurd (ground (arith, anonymous))
  | inr named ↦ named
]

module _ (parse : Bytes → Option Url) (calls : ℕ → FetchCall) (f : Fetcher) (i : ℕ) (u : Url)
    (resp : Response) (a : Answer parse calls i u resp) where
  -- A page of the front of the body.
  front-Sourced :
      (body : Bytes) (k : ℕ)
      → pos_part (calls i).offset ≡ 0
      → body ≡ take k resp.body.rest
      → Sourced parse calls i (page_result f u resp.status_code resp.content_type body 0)
  unfolding page_result result_of
  front-Sourced body k first e = record {
    url = u;
    resp = resp;
    answer = a;
    address = refl;
    status = refl;
    media = refl;
    position = sym first;
    slice =
        subst (λ n. Slice resp.body.rest n (page_from body 0 f.max_bytes).content) (sym first)
          (page_from_front-Slice body resp.body.rest k 0 f.max_bytes e);
  }

  captured-Good :
      (in_time : Bool)
      → pos_part (calls i).offset ≡ 0
      → is_empty (calls i).cache_key ≡ false
      → Good parse calls i (captured f u resp in_time)
  unfolding captured
  captured-Good in_time first named = elim (Option-cases (read_chunk resp.body f.max_bytes 0)) [
    | inl failed ↦ rw (Good, failed) tt
    | inr ((page, more), chunk) ↦
        let limit = f.cache_budget - length page in
        let cap = capture_rest in_time (skip (f.max_bytes + 1) resp.body) limit in
        let (page_front, (k, front)) =
          captured_front resp.body f.max_bytes limit in_time page more chunk in
        rw (Good, chunk)
          (elim (Bool-cases cap.1) [
            | inr incomplete ↦
                rw (incomplete, if◌then◌else◌)
                  (front-Sourced page (f.max_bytes + 1) first page_front)
            | inl complete ↦ elim (Bool-cases (leb (length (page ++ cap.0)) f.cache_budget)) [
              | inl fits ↦
                  rw (complete, fits, if◌then◌else◌)
                    (
                      named,
                      record {
                        url = u;
                        resp = resp;
                        answer = a;
                        status = refl;
                        media = refl;
                        size = k;
                        front = front;
                      },
                      front-Sourced (page ++ cap.0) k first front,
                    )
              | inr large ↦
                  rw (complete, large, if◌then◌else◌) (front-Sourced (page ++ cap.0) k first front)
            ]
          ])
  ]

  stream-Sourced :
      (p : Paged)
      → page_from_stream resp.body f.max_bytes (pos_part (calls i).offset) ≡ some p
      → Sourced parse calls i
          (result_of u resp.status_code resp.content_type (pos_part (calls i).offset) p)
  unfolding result_of
  stream-Sourced p e = record {
    url = u;
    resp = resp;
    answer = a;
    address = refl;
    status = refl;
    media = refl;
    position = refl;
    slice = page_from_stream-Slice resp.body f.max_bytes (pos_part (calls i).offset) p e;
  }

-- Whatever its GET meets, a request keeps only what its origin answered.
pub sent-Good :
    (parse : Bytes → Option Url) (calls : ℕ → FetchCall) (f : Fetcher) (i : ℕ) (u : Url)
    → parse (calls i).raw_url ≡ some u
    → Good parse calls i (sent f (calls i) u)
unfolding sent
sent-Good parse calls f i u parsed = elim (Option-cases ((calls i).origin.answer u)) [
  | inl silent ↦ rw (Good, silent) tt
  | inr (resp, answered) ↦
      elim (Bool-cases (ltb resp.status_code 200 || ltb 299 resp.status_code)) [
        | inl bad ↦ rw (Good, answered, bad, if◌then◌else◌) tt
        | inr good ↦
            let success : (200 ≤ resp.status_code) × (resp.status_code ≤ 299) = ground arith in
            let a = Answer-self parse calls i u resp parsed answered success in
            let first =
              not (is_empty (call_snap_key (calls i)))
              && (pos_part (calls i).offset == 0
                  && (leb_ℤ resp.content_length (pos 0)
                      || leb_ℤ resp.content_length (pos f.cache_budget))) in
            elim (Bool-cases first) [
              | inl capture ↦
                  rw (Good, answered, good, capture, if◌then◌else◌)
                    (captured-Good parse calls f i u resp a (calls i).origin.in_time (ground arith)
                      (named_of_snap_key (calls i) (ground arith)))
              | inr direct ↦
                  let read = page_from_stream resp.body f.max_bytes (pos_part (calls i).offset) in
                  elim (Option-cases read) [
                    | inl failed ↦ rw (Good, answered, good, direct, if◌then◌else◌, failed) tt
                    | inr (p, page) ↦
                        rw (Good, answered, good, direct, if◌then◌else◌, page)
                          (stream-Sourced parse calls f i u resp a p page)
                  ]
            ]
      ]
]
