-- ===== src/Fetch/Requests/Slices.antt =====
-- What a page shows of the body that the origin sent: bytes from the offset on.
use mathlib.Core.List.{append-nil}
use mcp_webtools.Prelude.{
  ℕ, zero, suc, ◌+◌, ◌-◌, ◌≡◌, sym, ap, ◌∙◌, inl, inr, Bool, true, false, some, [], ◌∷◌, ◌++◌,
  arith, ltb, if◌then◌else◌, Bool-cases, Option-cases, le_or_lt, length, take, drop, length-take,
  take_of_length-le, take-append, take-take, take_add, take_nil, Bytes,
}
use mcp_webtools.Utf8.{cut_to_utf8_boundary}
use mcp_webtools.Utf8.Front.{cut-prefix}
use mcp_webtools.Fetch.Page.{Paged, page_from, page_past, page_last, page_more}
use mcp_webtools.Fetch.Stream.{
  Stream, skip, read_all, copy_n, read_page, read_chunk, is_eof, page_from_stream, page_of_chunk,
  capture_rest,
}

abbrev pub Slice : Bytes → ℕ → Bytes → Type 0
Slice body offset content = (k : ℕ) × (content ≡ take k (drop offset body))

take_twice : (m n : ℕ) (xs : Bytes) → (k : ℕ) × (take m (take n xs) ≡ take k xs)
take_twice m n xs = elim (le_or_lt m n) [
  | inl below ↦ (m, take-take m n xs below)
  | inr above ↦ (n, take_of_length-le m (take n xs) (omega (arith, length-take n xs)))
]

drop-take : (m n : ℕ) (xs : Bytes) → drop m (take n xs) ≡ take (n - m) (drop m xs)
drop-take zero n xs = let e : n - 0 ≡ n = omega arith in rw e
drop-take (suc m) zero xs = let e : 0 - suc m ≡ 0 = omega arith in rw e
drop-take (suc m) (suc n) [] = sym (take_nil (suc n - suc m))
drop-take (suc m) (suc n) (x ∷ xs) =
    let e : suc n - suc m ≡ n - m = omega arith in rw e (drop-take m n xs)

Slice-cut : (k : ℕ) (xs : Bytes) → (m : ℕ) × (cut_to_utf8_boundary (take k xs) ≡ take m xs)
Slice-cut k xs =
    let cut = cut_to_utf8_boundary (take k xs) in
    let (gone, split) = cut-prefix (take k xs) in
    let front : cut ≡ take (length cut) (take k xs) =
      sym (take-append cut gone) ∙ ap (take (length cut)) (sym split) in
    let (m, twice) = take_twice (length cut) k xs in (m, front ∙ twice)

page_from-Slice :
    (body : Bytes) (offset n : ℕ) → Slice body offset (page_from body offset n).content
page_from-Slice body offset n = elim (le_or_lt (length body) offset) [
  | inl past ↦ (0, ap (λ (p : Paged). p.content) (page_past body offset n past))
  | inr inside ↦ elim (le_or_lt (length body) (offset + n)) [
    | inl last ↦ (
      length (drop offset body),
      ap (λ (p : Paged). p.content) (page_last body offset n inside last)
          ∙ sym (take_of_length-le _ (drop offset body) (omega arith)),
    )
    | inr more ↦
        let (m, cut) = Slice-cut n (drop offset body) in
        (m, ap (λ (p : Paged). p.content) (page_more body offset n more) ∙ cut)
  ]
]

-- A page of a document that is the front of a body.
pub page_from_front-Slice :
    (body rest : Bytes) (k offset n : ℕ)
    → body ≡ take k rest
    → Slice rest offset (page_from body offset n).content
page_from_front-Slice body rest k offset n e =
    let (m, page) = page_from-Slice body offset n in
    let (l, twice) = take_twice m (k - offset) (drop offset rest) in
    (l, page ∙ ap (λ b. take m (drop offset b)) e ∙ ap (take m) (drop-take offset k rest) ∙ twice)

read_page-Slice :
    (n offset : ℕ) (s : Stream) (buf : Bytes) (more : Bool)
    → read_page n (skip offset s) ≡ some (buf, more)
    → Slice s.rest offset buf
unfolding read_page read_all
read_page-Slice n offset s buf more h = (n + 1, ground arith)

read_chunk-Slice :
    (n offset : ℕ) (s : Stream) (buf : Bytes) (more : Bool)
    → read_chunk s n offset ≡ some (buf, more)
    → Slice s.rest offset buf
unfolding read_chunk copy_n is_eof
read_chunk-Slice n zero s buf more h = read_page-Slice n 0 s buf more h
read_chunk-Slice n (suc offset) s buf more h = elim (le_or_lt (suc offset) (length s.rest)) [
  | inl inside ↦ read_page-Slice n (suc offset) s buf more (ground arith)
  | inr past ↦ (0, ground arith)
]

page_of_chunk-Slice :
    (n offset k : ℕ) (buf xs : Bytes) (more : Bool)
    → buf ≡ take k xs
    → (l : ℕ) × ((page_of_chunk n offset (buf, more)).content ≡ take l xs)
unfolding page_of_chunk
page_of_chunk-Slice n offset k buf xs more e = elim (Bool-cases (ltb n (length buf))) [
  | inl long ↦
      let (m, cut) = Slice-cut n buf in
      let (l, twice) = take_twice m k xs in
      (l, rw (long, if◌then◌else◌) (cut ∙ ap (take m) e ∙ twice))
  | inr short ↦
      let (l, cut) = Slice-cut k xs in
      (l, rw (short, if◌then◌else◌) (ap cut_to_utf8_boundary e ∙ cut))
]

pub page_from_stream-Slice :
    (s : Stream) (n offset : ℕ) (p : Paged)
    → page_from_stream s n offset ≡ some p
    → Slice s.rest offset p.content
unfolding page_from_stream
page_from_stream-Slice s n offset p h = elim (Option-cases (read_chunk s n offset)) [
  | inl failed ↦ absurd (ground (arith, failed))
  | inr ((buf, more), chunk) ↦
      let (k, slice) = read_chunk-Slice n offset s buf more chunk in
      let (l, content) = page_of_chunk-Slice n offset k buf (drop offset s.rest) more slice in
      (l, ground (arith, chunk, content))
]

-- The document that a capture collects, complete or not, is a front of the body.
pub captured_front :
    (s : Stream) (n limit : ℕ) (in_time : Bool) (page : Bytes) (more : Bool)
    → read_chunk s n 0 ≡ some (page, more)
    → (page ≡ take (n + 1) s.rest)
      × ((k : ℕ) × (page ++ (capture_rest in_time (skip (n + 1) s) limit).0 ≡ take k s.rest))
unfolding read_chunk read_page read_all capture_rest
captured_front s n limit true page more h =
    let front : page ≡ take (n + 1) s.rest = ground arith in
    (
      front,
      (
        n + 1 + limit,
        ap (λ b. b ++ take limit (drop (n + 1) s.rest)) front ∙ take_add (n + 1) limit s.rest,
      ),
    )
captured_front s n limit false page more h =
    let front : page ≡ take (n + 1) s.rest = ground arith in
    (front, (n + 1, append-nil page ∙ front))
