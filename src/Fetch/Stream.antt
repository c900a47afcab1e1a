-- ===== src/Fetch/Stream.antt =====
-- The response body as fetch.go reads it: `readChunk`, `pageFromStream`, `bodyEnded`, `captureRest`,
-- over the functions of Go's io that they call. What stands behind a read is the bytes that the
-- transport still delivers, and whether an error or a clean end follows them.
pub mod Match
pub mod Capture
use mcp_webtools.Prelude.{
  ℕ, ◌+◌, Bool, true, false, not, ◌&&◌, Option, none, some, [], ltb, leb, ◌==◌, if◌then◌else◌,
  length, take, drop, Bytes,
}
use mcp_webtools.Utf8.{cut_to_utf8_boundary}
use mcp_webtools.Fetch.Page.{Paged}

pub record Stream : Type 0 where
  pub rest : Bytes
  pub broken : Bool

-- io.EOF, io.ErrUnexpectedEOF, and whatever else the transport reports
pub data ReadError : Type 0 where
  eof unexpected_eof transport : ReadError

unfoldable pub is_eof : ReadError → Bool
is_eof eof = true
is_eof _ = false

abbrev pub skip : ℕ → Stream → Stream
skip n s = record s { rest = drop n s.rest }

-- io.ReadAll(io.LimitReader(s, n))
unfoldable pub read_all : ℕ → Stream → Bytes × Option ReadError × Stream
read_all n s =
    (take n s.rest, if ltb (length s.rest) n && s.broken then some transport else none, skip n s)

-- io.CopyN(io.Discard, s, n): how many bytes went
unfoldable pub copy_n : ℕ → Stream → ℕ × Option ReadError × Stream
copy_n n s =
    if leb n (length s.rest)
    then (n, none, skip n s)
    else (length s.rest, some (if s.broken then transport else eof), skip n s)

-- io.ReadFull into a buffer of n bytes
unfoldable pub read_full : ℕ → Stream → ℕ × Option ReadError × Stream
read_full n s = if leb n (length s.rest) then (n, none, skip n s) else (
  length s.rest,
  some (if s.broken then transport else if length s.rest == 0 then eof else unexpected_eof),
  skip n s,
)

-- The bytes of the page with one more as a probe, and whether the body goes on; `none` is an error.
unfoldable pub read_page : ℕ → Stream → Option (Bytes × Bool)
unfolding read_all
read_page max_bytes s =
    let (buf, failed, _) = read_all (max_bytes + 1) s in
    elim failed [ some _ ↦ none | none ↦ some (buf, ltb max_bytes (length buf)) ]

unfoldable pub read_chunk : Stream → ℕ → ℕ → Option (Bytes × Bool)
unfolding copy_n is_eof read_page
read_chunk s max_bytes offset =
    if ltb 0 offset
    then (let (n, failed, s') = copy_n offset s in
        elim failed [
          | some e ↦
              if is_eof e
              then (if ltb n offset then some ([], false) else read_page max_bytes s')
              else none
          | none ↦ if ltb n offset then some ([], false) else read_page max_bytes s'
        ])
    else read_page max_bytes s

-- What `pageFromStream` makes of a chunk; the other fields of its result come from the response.
unfoldable pub page_of_chunk : ℕ → ℕ → Bytes × Bool → Paged
page_of_chunk max_bytes offset (buf, truncated) =
    let page = if ltb max_bytes (length buf) then take max_bytes buf else buf in
    let content = cut_to_utf8_boundary page in
    record {
      content = content;
      truncated = truncated;
      next_offset = if truncated then offset + length content else 0;
    }

unfoldable pub page_from_stream : Stream → ℕ → ℕ → Option Paged
unfolding page_of_chunk
page_from_stream s max_bytes offset = elim (read_chunk s max_bytes offset) [
  | none ↦ none
  | some chunk ↦ some (page_of_chunk max_bytes offset chunk)
]

-- Probes the two bytes behind what was read, and one more after a single byte.
unfoldable pub body_ended : Stream → Bool
unfolding read_full is_eof
body_ended s =
    let (n, failed, s') = read_full 2 s in
    elim failed [
      | none ↦ false
      | some e ↦
          if n == 0
          then is_eof e
          else (let (_, failed', _) = read_full 1 s' in
              elim failed' [ none ↦ false | some e' ↦ is_eof e' ])
    ]

-- `in_time` says whether the goroutine that reads sends before the timer fires. A limit that is not
-- positive reads nothing.
unfoldable pub capture_rest : Bool → Stream → ℕ → Bytes × Bool
unfolding read_all body_ended
capture_rest in_time s limit =
    let (rest, _, s') = read_all limit s in
    let over = not (body_ended s') in if in_time then (rest, not over) else ([], false)
