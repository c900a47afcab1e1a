-- ===== src/Fetch/Requests/Sources.antt =====
-- Where the documents and the results of the two caches come from.
use mcp_webtools.Prelude.{
  ok, err, ℕ, ◌≤◌, ◌≡◌, refl, sym, ap, ◌∙◌, subst, true, false, Option, some, arith, take, pos_part,
  Bytes, is_empty,
}
use mcp_webtools.Keys.{format_int}
use mcp_webtools.Keys.Decimal.{HasNoNul, format_int-HasNoNul, format_int-injective}
use mcp_webtools.Keys.Split.{join-injective, join-injective_last}
use mcp_webtools.Fetch.Page.{page_from}
use mcp_webtools.Fetch.Fetcher.{
  Url, Response, Result, DocEntry, result_of, snap_key_of, result_key_of,
}
use mcp_webtools.Fetch.Requests.{
  FetchCall, call_snap_key, call_result_key, Progress, starting, result_missed, snapshot_missed,
  keeping_snapshot, keeping_result, ended,
}
use mcp_webtools.Fetch.Requests.Slices.{Slice, page_from_front-Slice}

-- A response that an origin gave to the request of `from`, for the URL that `c` asks for. The
-- requests are of one caller, and where it has no ID they are one request.
pub record Answer (parse : Bytes → Option Url) (calls : ℕ → FetchCall) (i : ℕ) (u : Url)
    (resp : Response) : Type 0 where
  pub source : ℕ
  pub same_caller : (calls source).cache_key ≡ (calls i).cache_key
  pub same_url : (calls source).raw_url ≡ (calls i).raw_url
  pub own : is_empty (calls i).cache_key ≡ true → source ≡ i
  pub parsed : parse (calls i).raw_url ≡ some u
  pub answered : (calls source).origin.answer u ≡ some resp
  pub success : (200 ≤ resp.status_code) × (resp.status_code ≤ 299)

-- The result is a page of such a response, at the offset that `i` asks for.
pub record Sourced (parse : Bytes → Option Url) (calls : ℕ → FetchCall) (i : ℕ) (r : Result)
    : Type 0 where
  pub url : Url
  pub resp : Response
  pub answer : Answer parse calls i url resp
  pub address : r.url ≡ url.redacted
  pub status : r.status_code ≡ resp.status_code
  pub media : r.content_type ≡ resp.content_type
  pub position : r.offset ≡ pos_part (calls i).offset
  pub slice : Slice resp.body.rest (pos_part (calls i).offset) r.content

-- The document is the front of the body of such a response.
pub record Document (parse : Bytes → Option Url) (calls : ℕ → FetchCall) (i : ℕ) (e : DocEntry)
    : Type 0 where
  pub url : Url
  pub resp : Response
  pub answer : Answer parse calls i url resp
  pub status : e.status_code ≡ resp.status_code
  pub media : e.content_type ≡ resp.content_type
  pub size : ℕ
  pub front : e.body ≡ take size resp.body.rest

module _ (parse : Bytes → Option Url) (calls : ℕ → FetchCall) where
  -- What stands under a key was stored by a request with that key.
  abbrev pub HeldDocument : Bytes → DocEntry → Type 0
  HeldDocument k e =
      (i : ℕ) × (k ≡ call_snap_key (calls i))
      × (is_empty (calls i).cache_key ≡ false)
      × Document parse calls i e

  abbrev pub HeldResult : Bytes → Result → Type 0
  HeldResult k r =
      (i : ℕ) × (k ≡ call_result_key (calls i))
      × (is_empty (calls i).cache_key ≡ false)
      × Sourced parse calls i r

  abbrev pub Good : ℕ → Progress → Type 0
  Good i starting = Unit {0}
  Good i (result_missed u) = parse (calls i).raw_url ≡ some u
  Good i (snapshot_missed u) = parse (calls i).raw_url ≡ some u
  Good i (keeping_snapshot e r) =
      (is_empty (calls i).cache_key ≡ false) × Document parse calls i e × Sourced parse calls i r
  Good i (keeping_result r) = Sourced parse calls i r
  Good i (ended (err e)) = Unit {0}
  Good i (ended (ok r)) = Sourced parse calls i r

  pub Answer-self :
      (i : ℕ) (u : Url) (resp : Response)
      → parse (calls i).raw_url ≡ some u
      → (calls i).origin.answer u ≡ some resp
      → (200 ≤ resp.status_code) × (resp.status_code ≤ 299)
      → Answer parse calls i u resp
  Answer-self i u resp parsed answered success = record {
    source = i;
    same_caller = refl;
    same_url = refl;
    own = λ e. refl;
    parsed = parsed;
    answered = answered;
    success = success;
  }

  -- The answer to one request serves another of the same caller for the same URL.
  Answer-shared :
      (i j : ℕ) (u : Url) (resp : Response)
      → (calls i).cache_key ≡ (calls j).cache_key
      → (calls i).raw_url ≡ (calls j).raw_url
      → is_empty (calls i).cache_key ≡ false
      → Answer parse calls i u resp
      → Answer parse calls j u resp
  Answer-shared i j u resp caller url named a = record {
    source = a.source;
    same_caller = a.same_caller ∙ caller;
    same_url = a.same_url ∙ url;
    own = λ e. absurd (cc (named, e, ap is_empty caller));
    parsed = ap parse (sym url) ∙ a.parsed;
    answered = a.answered;
    success = a.success;
  }

  -- A page of a held document.
  pub Document-page :
      (i : ℕ) (u : Url) (e : DocEntry) (n : ℕ)
      → parse (calls i).raw_url ≡ some u
      → Document parse calls i e
      → Sourced parse calls i (
          result_of u e.status_code e.content_type
            (pos_part (calls i).offset)
            (page_from e.body (pos_part (calls i).offset) n))
  unfolding result_of
  Document-page i u e n parsed d =
      let same : u ≡ d.url = cc (parsed, d.answer.parsed) in
      record {
        url = d.url;
        resp = d.resp;
        answer = d.answer;
        address = ap (λ (v : Url). v.redacted) same;
        status = d.status;
        media = d.media;
        position = refl;
        slice =
            page_from_front-Slice e.body d.resp.body.rest d.size (pos_part (calls i).offset) n
              d.front;
      }

  module _ (plain : (i : ℕ) → HasNoNul (calls i).cache_key) where
    snap_keys :
        (i j : ℕ)
        → is_empty (calls i).cache_key ≡ false
        → is_empty (calls j).cache_key ≡ false
        → call_snap_key (calls i) ≡ call_snap_key (calls j)
        → ((calls i).cache_key ≡ (calls j).cache_key) × ((calls i).raw_url ≡ (calls j).raw_url)
    unfolding snap_key_of
    snap_keys i j named named_j e =
        join-injective (calls i).cache_key (calls j).cache_key (calls i).raw_url (calls j).raw_url
          (plain i) (plain j) (ground (arith, named, named_j, e))

    result_keys :
        (i j : ℕ)
        → is_empty (calls i).cache_key ≡ false
        → is_empty (calls j).cache_key ≡ false
        → call_result_key (calls i) ≡ call_result_key (calls j)
        → (call_snap_key (calls i) ≡ call_snap_key (calls j))
          × (pos_part (calls i).offset ≡ pos_part (calls j).offset)
    unfolding result_key_of
    result_keys i j named named_j e =
        let m = pos_part (calls i).offset in
        let n = pos_part (calls j).offset in
        let (front, last) =
          join-injective_last (call_snap_key (calls i)) (call_snap_key (calls j)) (format_int m)
            (format_int n) (format_int-HasNoNul m) (format_int-HasNoNul n)
            (ground (arith, named, named_j, e)) in
        (front, format_int-injective m n last)

    -- What a request finds under its key serves it.
    pub HeldDocument-own :
        (j : ℕ) (e : DocEntry)
        → is_empty (calls j).cache_key ≡ false
        → HeldDocument (call_snap_key (calls j)) e
        → Document parse calls j e
    HeldDocument-own j e named_j (i, key, named, d) =
        let (caller, url) = snap_keys i j named named_j (sym key) in
        record {
          url = d.url;
          resp = d.resp;
          answer = Answer-shared i j d.url d.resp caller url named d.answer;
          status = d.status;
          media = d.media;
          size = d.size;
          front = d.front;
        }

    pub HeldResult-own :
        (j : ℕ) (r : Result)
        → is_empty (calls j).cache_key ≡ false
        → HeldResult (call_result_key (calls j)) r
        → Sourced parse calls j r
    HeldResult-own j r named_j (i, key, named, d) =
        let (front, offset) = result_keys i j named named_j (sym key) in
        let (caller, url) = snap_keys i j named named_j front in
        record {
          url = d.url;
          resp = d.resp;
          answer = Answer-shared i j d.url d.resp caller url named d.answer;
          address = d.address;
          status = d.status;
          media = d.media;
          position = d.position ∙ offset;
          slice = subst (λ n. Slice d.resp.body.rest n r.content) offset d.slice;
        }
