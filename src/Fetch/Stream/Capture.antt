-- ===== src/Fetch/Stream/Capture.antt =====
-- What `captureRest` takes for the end of a body.
use mcp_webtools.Prelude.{
  ℕ, ◌+◌, ◌≡◌, sym, ap, ◌∙◌, ◌≢◌, Bool, true, false, not, ◌&&◌, arith, ltb, leb, length, take, drop,
  length-drop, take_of_length-le, drop_of_length-le, Bytes,
}
use mcp_webtools.Fetch.Stream.{Stream, body_ended, capture_rest}

-- The probe answers "ended" for a clean end after at most one more byte.
body_ended_lem : (s : Stream) → body_ended s ≡ (not s.broken && ltb (length s.rest) 2)
unfolding body_ended
body_ended_lem s = ground (arith, length-drop 2 s.rest, drop_of_length-le 2 s.rest)

-- In time, what is captured are the first `limit` bytes, and the body counts as complete when it
-- ends cleanly at most one byte behind them.
pub capture_rest_lem :
    (s : Stream) (limit : ℕ)
    → capture_rest true s limit
      ≡ (take limit s.rest, not s.broken && leb (length s.rest) (limit + 1))
unfolding capture_rest
capture_rest_lem s limit =
    ground (arith, body_ended_lem (record s { rest = drop limit s.rest }), length-drop limit s.rest)

-- A capture that reports the end holds the whole rest of the body, unless exactly one byte lies
-- behind the limit.
pub capture_rest_whole :
    (in_time : Bool) (s : Stream) (limit : ℕ)
    → (capture_rest in_time s limit).1 ≡ true
    → length s.rest ≢ limit + 1
    → (capture_rest in_time s limit).0 ≡ s.rest
unfolding capture_rest
capture_rest_whole true s limit h other =
    let e = capture_rest_lem s limit in
    let complete : (not s.broken && leb (length s.rest) (limit + 1)) ≡ true =
      sym (ap (λ (r : Bytes × Bool). r.1) e) ∙ h in
    ap (λ (r : Bytes × Bool). r.0) e ∙ take_of_length-le limit s.rest (ground arith)
capture_rest_whole false s limit h other = cc

-- With exactly one byte behind the limit the capture reports the end, and has lost that byte.
pub capture_rest_short :
    (body : Bytes) (limit : ℕ)
    → length body ≡ limit + 1
    → capture_rest true (record { rest = body; broken = false }) limit ≡ (take limit body, true)
capture_rest_short body limit h =
    capture_rest_lem (record { rest = body; broken = false }) limit ∙ ground arith
