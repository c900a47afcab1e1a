-- ===== src/Fetch/Stream/Match.antt =====
-- A page read from a live body against the same page of a snapshot.
use mcp_webtools.Prelude.{
  ℕ, zero, suc, ◌+◌, ◌≤◌, ◌<◌, ◌≡◌, ap, ◌∙◌, inl, inr, true, false, none, some, arith, ltb,
  le_or_lt, length, take, drop, length-take, length-drop, take_of_length-le, drop_of_length-le,
  take-take, Bytes,
}
use mcp_webtools.Utf8.{cut_to_utf8_boundary}
use mcp_webtools.Utf8.Valid.{IsUtf8, empty}
use mcp_webtools.Utf8.Cut.{cut_to_utf8_boundary_text}
use mcp_webtools.Utf8.Front.{cut_to_utf8_boundary_idem}
use mcp_webtools.Fetch.Page.{Paged, page_from, page_past, page_last, page_more}
use mcp_webtools.Fetch.Stream.{Stream, read_chunk, page_of_chunk, page_from_stream}

abbrev pub live : Bytes → Stream
live body = record { rest = body; broken = false }

-- The chunk of a body that ends cleanly.
pub read_chunk-live :
    (body : Bytes) (max_bytes offset : ℕ)
    → read_chunk (live body) max_bytes offset
      ≡ some (take (max_bytes + 1) (drop offset body), ltb (offset + max_bytes) (length body))
unfolding read_chunk
read_chunk-live body max_bytes zero =
    let e : 0 + max_bytes ≡ max_bytes = omega arith in
    ground (arith, length-take (max_bytes + 1) body, e)
read_chunk-live body max_bytes (suc n) = ground (
  arith,
  length-take (max_bytes + 1) (drop (suc n) body),
  length-drop (suc n) body,
  drop_of_length-le (suc n) body,
)

-- Of the three cases of a page: the chunk, without its probe byte.
chunk_page :
    (body : Bytes) (max_bytes offset : ℕ)
    → page_from_stream (live body) max_bytes offset
      ≡ some (
          page_of_chunk max_bytes offset
            (take (max_bytes + 1) (drop offset body), ltb (offset + max_bytes) (length body)))
unfolding page_from_stream
chunk_page body max_bytes offset = rw (read_chunk-live body max_bytes offset, page_from_stream)

abbrev pub cut_page : Paged → Paged
cut_page p = record p { content = cut_to_utf8_boundary p.content }

module _ (body : Bytes) (max_bytes offset : ℕ) where
  chunk_more :
      offset + max_bytes < length body
      → page_of_chunk max_bytes offset
          (take (max_bytes + 1) (drop offset body), ltb (offset + max_bytes) (length body))
        ≡ cut_page (page_from body offset max_bytes)
  unfolding page_of_chunk
  chunk_more h = rw (page_more body offset max_bytes h) (
      ground (
        arith,
        take-take max_bytes (max_bytes + 1) (drop offset body),
        length-take (max_bytes + 1) (drop offset body),
        length-drop offset body,
        cut_to_utf8_boundary_idem (take max_bytes (drop offset body)),
        ap cut_to_utf8_boundary
            (take-take max_bytes (max_bytes + 1) (drop offset body) (omega arith)),
      ))

  chunk_last :
      length body ≤ offset + max_bytes
      → page_of_chunk max_bytes offset
          (take (max_bytes + 1) (drop offset body), ltb (offset + max_bytes) (length body))
        ≡ record {
          content = cut_to_utf8_boundary (drop offset body);
          truncated = false;
          next_offset = 0;
        }
  unfolding page_of_chunk
  chunk_last h =
      rw
        (take_of_length-le (max_bytes + 1) (drop offset body)
          (omega (arith, length-drop offset body)))
        (ground (arith, length-drop offset body))

  -- On a body that ends cleanly, the page read from the stream is the page of a snapshot with its
  -- content cut back to a rune boundary.
  pub page_from_stream-page_from :
      page_from_stream (live body) max_bytes offset
      ≡ some (cut_page (page_from body offset max_bytes))
  page_from_stream-page_from =
      chunk_page body max_bytes offset
      ∙ ap some (elim (le_or_lt (length body) (offset + max_bytes)) [
        | inr h ↦ chunk_more h
        | inl h ↦ chunk_last h ∙ elim (le_or_lt (length body) offset) [
          | inl past ↦ rw (page_past body offset max_bytes past, drop_of_length-le offset body past)
          | inr inner ↦ rw (page_last body offset max_bytes inner h)
        ]
      ])

  -- A page that is cut, or well-formed as it is, agrees.
  cut_page_text :
      IsUtf8 (drop offset body)
      → cut_page (page_from body offset max_bytes) ≡ page_from body offset max_bytes
  cut_page_text text = elim (le_or_lt (length body) (offset + max_bytes)) [
    | inr h ↦
        rw (page_more body offset max_bytes h)
          (ground (arith, cut_to_utf8_boundary_idem (take max_bytes (drop offset body))))
    | inl h ↦ elim (le_or_lt (length body) offset) [
      | inl past ↦
          rw (page_past body offset max_bytes past)
            (ground (arith, cut_to_utf8_boundary_text empty))
      | inr inner ↦
          rw (page_last body offset max_bytes inner h)
            (ground (arith, cut_to_utf8_boundary_text text))
    ]
  ]

  -- On a body that ends cleanly and is well-formed UTF-8 from the offset on, the page read from
  -- the stream is the page of a snapshot.
  pub page_from_stream-text :
      IsUtf8 (drop offset body)
      → page_from_stream (live body) max_bytes offset ≡ some (page_from body offset max_bytes)
  page_from_stream-text text = page_from_stream-page_from ∙ ap some (cut_page_text text)

-- A transport that breaks off within the bytes up to the end of the page gives no page.
pub page_from_stream-broken :
    (rest : Bytes) (max_bytes offset : ℕ)
    → length rest ≤ offset + max_bytes
    → page_from_stream (record { rest = rest; broken = true }) max_bytes offset ≡ none
unfolding page_from_stream read_chunk
page_from_stream-broken rest max_bytes offset h = ground (arith, length-drop offset rest)
