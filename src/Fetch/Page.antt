-- ===== src/Fetch/Page.antt =====
-- `pageFrom` of internal/tools/fetch/fetch.go: a page of a document that is held whole. Offsets and
-- sizes have passed the checks for their sign and are natural numbers.
pub mod Reading
use mcp_webtools.Prelude.{
  ℕ, ◌+◌, ◌-◌, ◌≤◌, ◌<◌, ◌≡◌, ap, Bool, true, false, [], arith, ltb, leb, if◌then◌else◌, length,
  take, drop, length-drop, take_of_length-le, Bytes,
}
use mcp_webtools.Utf8.{cut_to_utf8_boundary}

-- The three results: the content, whether the document goes on, and where.
pub record Paged : Type 0 where
  pub content : Bytes
  pub truncated : Bool
  pub next_offset : ℕ

unfoldable pub page_from : Bytes → ℕ → ℕ → Paged
page_from body offset max_bytes =
    if leb (length body) offset
    then record { content = []; truncated = false; next_offset = 0 }
    else let end =
        if ltb (length body) (offset + max_bytes) then length body else offset + max_bytes in
      let chunk = take (end - offset) (drop offset body) in
      if ltb (offset + max_bytes) (length body)
      then record {
        content = cut_to_utf8_boundary chunk;
        truncated = true;
        next_offset = offset + length (cut_to_utf8_boundary chunk);
      }
      else record { content = chunk; truncated = false; next_offset = 0 }

-- The three branches, with the sums gone.
module _ (body : Bytes) (offset max_bytes : ℕ) where
  pub page_past :
      length body ≤ offset
      → page_from body offset max_bytes
        ≡ record { content = []; truncated = false; next_offset = 0 }
  unfolding page_from
  page_past h = ground arith

  pub page_last :
      offset < length body
      → length body ≤ offset + max_bytes
      → page_from body offset max_bytes
        ≡ record { content = drop offset body; truncated = false; next_offset = 0 }
  unfolding page_from
  page_last h k =
      ground (
        arith,
        take_of_length-le (length body - offset) (drop offset body),
        length-drop offset body,
      )

  pub page_more :
      offset + max_bytes < length body
      → page_from body offset max_bytes ≡ record {
        content = cut_to_utf8_boundary (take max_bytes (drop offset body));
        truncated = true;
        next_offset = offset + length (cut_to_utf8_boundary (take max_bytes (drop offset body)));
      }
  unfolding page_from
  page_more h =
      let size : offset + max_bytes - offset ≡ max_bytes = omega arith in
      ground (arith, ap (λ (n : ℕ). cut_to_utf8_boundary (take n (drop offset body))) size)
