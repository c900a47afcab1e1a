-- ===== src/Utf8.antt =====
-- The part of Go's unicode/utf8 that the program uses: `DecodeLastRune`, of which it reads only
-- whether the text ends in a broken rune (`RuneError` of size 1 or less), and the loop over it that
-- cuts such ends off, `cutToUTF8Boundary` of internal/tools/fetch/fetch.go. Bytes are numbers below
-- 256. A list is read from its end: the functions below take the bytes last first.
pub mod Valid
pub mod Cut
pub mod Front
use mcp_webtools.Prelude.{
  ℕ, Bool, true, false, not, ◌&&◌, [], ◌∷◌, ltb, leb, ◌==◌, if◌then◌else◌, rev_onto, Bytes,
}

unfoldable pub in_range : ℕ → ℕ → ℕ → Bool
in_range lo hi b = leb lo b && leb b hi

unfoldable pub is_continuation : ℕ → Bool
unfolding in_range
is_continuation = in_range 0x80 0xbf

-- The well-formed encodings of two, three and four bytes, first byte first.
unfoldable pub is_rune2 : ℕ → ℕ → Bool
unfolding in_range is_continuation
is_rune2 a b = in_range 0xc2 0xdf a && is_continuation b

unfoldable pub is_second3 : ℕ → ℕ → Bool
unfolding in_range is_continuation
is_second3 a b =
    if a == 0xe0
    then in_range 0xa0 0xbf b
    else if a == 0xed
    then in_range 0x80 0x9f b
    else is_continuation b

unfoldable pub is_rune3 : ℕ → ℕ → ℕ → Bool
unfolding in_range is_continuation is_second3
is_rune3 a b c = in_range 0xe0 0xef a && (is_second3 a b && is_continuation c)

unfoldable pub is_second4 : ℕ → ℕ → Bool
unfolding in_range is_continuation
is_second4 a b =
    if a == 0xf0
    then in_range 0x90 0xbf b
    else if a == 0xf4
    then in_range 0x80 0x8f b
    else is_continuation b

unfoldable pub is_rune4 : ℕ → ℕ → ℕ → ℕ → Bool
unfolding in_range is_continuation is_second4
is_rune4 a b c d =
    in_range 0xf0 0xf4 a && (is_second4 a b && (is_continuation c && is_continuation d))

-- `DecodeLastRune` walks back over at most three continuation bytes to a byte that can begin a rune,
-- and decodes from there: what lies between must be exactly one rune.
unfoldable pub ends4 : ℕ → ℕ → ℕ → Bytes → Bool
ends4 d c b [] = false
ends4 d c b (a ∷ before) = not (is_continuation a) && is_rune4 a b c d

unfoldable pub ends3 : ℕ → ℕ → Bytes → Bool
unfolding ends4
ends3 c b [] = false
ends3 c b (a ∷ before) = if is_continuation a then ends4 c b a before else is_rune3 a b c

unfoldable pub ends2 : ℕ → Bytes → Bool
unfolding ends3
ends2 b [] = false
ends2 b (a ∷ before) = if is_continuation a then ends3 b a before else is_rune2 a b

unfoldable pub ends_in_rune : Bytes → Bool
unfolding ends2
ends_in_rune [] = false
ends_in_rune (a ∷ before) = if ltb a 0x80 then true else ends2 a before

unfoldable pub cut_back : Bytes → Bytes
unfolding ends_in_rune
cut_back [] = []
cut_back (a ∷ before) = if ends_in_rune (a ∷ before) then a ∷ before else cut_back before

unfoldable pub cut_to_utf8_boundary : Bytes → Bytes
unfolding cut_back
cut_to_utf8_boundary b = rev_onto (cut_back (rev_onto b [])) []
