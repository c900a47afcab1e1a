-- ===== src/Fetch/Page/Reading.antt =====
-- An agent that reads a document page by page, following `next_offset` until `truncated` is false.
use mcp_webtools.Prelude.{
  ℕ, zero, suc, ◌+◌, ◌≤◌, ◌<◌, ◌≡◌, refl, sym, ap, inl, inr, true, false, Option, none, some, [],
  ◌++◌, arith, Bool-cases, le_or_lt, length, take, drop, take-append-drop, length-take, length-drop,
  drop_of_length-le, drop-drop, Bytes,
}
use mcp_webtools.Utf8.Valid.{IsUtf8, empty}
use mcp_webtools.Utf8.Cut.{cut_to_utf8_boundary-take}
use mcp_webtools.Utf8.Front.{AllContinuation, cut_continuation}
use mcp_webtools.Fetch.Page.{Paged, page_from, page_past, page_last, page_more}

-- The document from `offset` on, or `none` if the fuel runs out first.
unfoldable pub read_pages : ℕ → Bytes → ℕ → ℕ → Option Bytes
read_pages zero body offset max_bytes = none
read_pages (suc fuel) body offset max_bytes =
    let page = page_from body offset max_bytes in
    elim page.truncated [
      | false ↦ some page.content
      | true ↦ elim (read_pages fuel body page.next_offset max_bytes) [
        | none ↦ none
        | some rest ↦ some (page.content ++ rest)
      ]
    ]

-- What a page promises about the text from `offset` on.
pub record Progress (body : Bytes) (offset max_bytes : ℕ) (page : Paged) : Type 0 where
  pub bounded : length page.content ≤ max_bytes
  pub whole : IsUtf8 page.content
  pub rest : page.truncated ≡ true → IsUtf8 (drop page.next_offset body)
  pub forward : page.truncated ≡ true → offset < page.next_offset
  pub inside : page.truncated ≡ true → page.next_offset < length body
  pub joins : page.truncated ≡ true → page.content ++ drop page.next_offset body ≡ drop offset body
  pub ends : page.truncated ≡ false → page.content ≡ drop offset body

module _ (body : Bytes) (offset max_bytes : ℕ) (text : IsUtf8 (drop offset body))
    (room : 4 ≤ max_bytes) where
  Progress-more :
      offset + max_bytes < length body
      → Progress body offset max_bytes (page_from body offset max_bytes)
  Progress-more h =
      let (m, cut, whole) = cut_to_utf8_boundary-take max_bytes text in
      let size : length (take m (drop offset body)) ≡ m =
        omega (arith, length-take m (drop offset body), length-drop offset body, whole.within) in
      rw (page_more body offset max_bytes h, cut, size)
        (record {
          bounded = omega (arith, size, whole.within);
          whole = whole.before;
          rest = λ _. rw (sym (drop-drop m offset body)) whole.after;
          forward = λ _. omega (arith, whole.near, length-drop offset body);
          inside = λ _. omega (arith, whole.within);
          joins = λ _. rw (sym (drop-drop m offset body)) (take-append-drop m (drop offset body));
          ends = λ e. cc;
        })

  -- On text that is well-formed from the offset on, a page of at least four bytes is well-formed
  -- and within the budget; if truncated, the next offset lies further on and inside the text and
  -- the page and the text from there on join to the text from the offset; otherwise the page is
  -- that text.
  pub page_from-Progress : Progress body offset max_bytes (page_from body offset max_bytes)
  page_from-Progress = elim (le_or_lt (length body) (offset + max_bytes)) [
    | inr h ↦ Progress-more h
    | inl h ↦ elim (le_or_lt (length body) offset) [
      | inl past ↦ rw (page_past body offset max_bytes past) (record {
        bounded = omega arith;
        whole = empty;
        rest = λ e. cc;
        forward = λ e. cc;
        inside = λ e. cc;
        joins = λ e. cc;
        ends = λ _. sym (drop_of_length-le offset body past);
      })
      | inr inner ↦ rw (page_last body offset max_bytes inner h) (record {
        bounded = omega (arith, length-drop offset body);
        whole = text;
        rest = λ e. cc;
        forward = λ e. cc;
        inside = λ e. cc;
        joins = λ e. cc;
        ends = λ _. refl;
      })
    ]
  ]

-- With more fuel than bytes left, the pages read in turn are the text from `offset` on.
pub read_pages-drop :
    (fuel : ℕ) (body : Bytes) (offset max_bytes : ℕ)
    → IsUtf8 (drop offset body)
    → 4 ≤ max_bytes
    → offset ≤ length body
    → length body < offset + fuel
    → read_pages fuel body offset max_bytes ≡ some (drop offset body)
unfolding read_pages
read_pages-drop zero body offset max_bytes text room l h = absurd (omega arith)
read_pages-drop (suc fuel) body offset max_bytes text room l h =
    let p = page_from-Progress body offset max_bytes text room in
    elim (Bool-cases (page_from body offset max_bytes).truncated) [
      | inr last ↦ rw (last, read_pages, p.ends last)
      | inl more ↦
          let later =
            read_pages-drop fuel body (page_from body offset max_bytes).next_offset max_bytes
              (p.rest more) room (omega (arith, p.inside more)) (omega (arith, p.forward more)) in
          rw (more, read_pages, later, p.joins more)
    ]

-- For a document of well-formed UTF-8 and pages of at least four bytes, reading from the start and
-- following next_offset ends within one round for each byte and one more, and the pages make up
-- the document.
pub read_pages-document :
    (body : Bytes) (max_bytes : ℕ)
    → IsUtf8 body
    → 4 ≤ max_bytes
    → read_pages (suc (length body)) body 0 max_bytes ≡ some body
read_pages-document body max_bytes text room =
    read_pages-drop _ body 0 max_bytes text room (omega arith) (omega arith)

-- A page of continuation bytes alone (a slice of a binary file) comes back empty, announces more, and
-- sends the reader back to where it stood.
pub page_stuck :
    (body : Bytes) (offset max_bytes : ℕ)
    → offset + max_bytes < length body
    → AllContinuation (take max_bytes (drop offset body))
    → page_from body offset max_bytes
      ≡ record { content = []; truncated = true; next_offset = offset }
page_stuck body offset max_bytes h broken =
    let e : offset + 0 ≡ offset = omega arith in
    rw (page_more body offset max_bytes h, cut_continuation _ broken, e)

-- Where a page that is not the last holds continuation bytes alone, a reader that follows
-- next_offset never reaches the end, whatever the number of rounds.
pub read_pages-stuck :
    (fuel : ℕ) (body : Bytes) (offset max_bytes : ℕ)
    → offset + max_bytes < length body
    → AllContinuation (take max_bytes (drop offset body))
    → read_pages fuel body offset max_bytes ≡ none
unfolding read_pages
read_pages-stuck zero body offset max_bytes h broken = refl
read_pages-stuck (suc fuel) body offset max_bytes h broken =
    let stuck = page_stuck body offset max_bytes h broken in
    ground (
      arith,
      stuck,
      ap (λ (p : Paged). read_pages fuel body p.next_offset max_bytes) stuck,
      read_pages-stuck fuel body offset max_bytes h broken,
    )
