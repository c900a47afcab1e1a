-- ===== src/Utf8/Front.antt =====
-- What `cutToUTF8Boundary` keeps of any bytes: a front of them, to which a second cut does nothing.
use mcp_webtools.Prelude.{
  ◌≤◌, ◌≡◌, refl, sym, ap, ◌∙◌, inl, inr, true, false, [], ◌∷◌, ◌++◌, arith, if◌then◌else◌,
  Bool-cases, length, length-append, rev_onto, rev_onto-append, rev_onto_acc, Bytes,
}
use mcp_webtools.Utf8.{
  in_range, is_continuation, ends4, ends3, ends2, ends_in_rune, cut_back, cut_to_utf8_boundary,
}
use mcp_webtools.Utf8.Cut.{rev_onto_nil, IsWhole-of_ends}

-- The bytes that the cut drops stand at the end.
cut_back_split : (b : Bytes) → (gone : Bytes) × (b ≡ gone ++ cut_back b)
unfolding cut_back
cut_back_split [] = ([], refl)
cut_back_split (a ∷ b) = elim (Bool-cases (ends_in_rune (a ∷ b))) [
  | inl e ↦ ([], rw e)
  | inr e ↦ let (gone, split) = cut_back_split b in (a ∷ gone, rw e (ap (◌∷◌ a) split))
]

cut_back_idem : (b : Bytes) → cut_back (cut_back b) ≡ cut_back b
unfolding cut_back
cut_back_idem [] = refl
cut_back_idem (a ∷ b) = elim (Bool-cases (ends_in_rune (a ∷ b))) [
  | inl e ↦ rw (e, if◌then◌else◌) (IsWhole-of_ends (a ∷ b) e)
  | inr e ↦ rw (e, if◌then◌else◌) (cut_back_idem b)
]

pub cut_to_utf8_boundary_idem :
    (b : Bytes) → cut_to_utf8_boundary (cut_to_utf8_boundary b) ≡ cut_to_utf8_boundary b
unfolding cut_to_utf8_boundary
cut_to_utf8_boundary_idem b =
    ap (λ (l : Bytes). rev_onto (cut_back l) []) (rev_onto_nil (cut_back (rev_onto b [])))
    ∙ ap (λ (l : Bytes). rev_onto l []) (cut_back_idem (rev_onto b []))

-- The cut of any bytes is a prefix of them.
pub cut-prefix : (b : Bytes) → (gone : Bytes) × (b ≡ cut_to_utf8_boundary b ++ gone)
unfolding cut_to_utf8_boundary
cut-prefix b =
    let (back, split) = cut_back_split (rev_onto b []) in
    (
      rev_onto back [],
      sym (rev_onto_nil b)
          ∙ ap (λ (l : Bytes). rev_onto l []) split
          ∙ rev_onto-append back (cut_back (rev_onto b [])) []
          ∙ rev_onto_acc (cut_back (rev_onto b [])) [] (rev_onto back []),
    )

pub length-cut-le : (b : Bytes) → length (cut_to_utf8_boundary b) ≤ length b
length-cut-le b =
    let (gone, split) = cut-prefix b in
    omega (arith, ap length split, length-append (cut_to_utf8_boundary b) gone)

abbrev pub AllContinuation : Bytes → Type 0
AllContinuation [] = Unit {0}
AllContinuation (a ∷ b) = (is_continuation a ≡ true) × AllContinuation b

ends_continuation : (b : Bytes) → AllContinuation b → ends_in_rune b ≡ false
unfolding ends_in_rune ends2 ends3 ends4 is_continuation in_range
ends_continuation [] h = refl
ends_continuation (a ∷ []) h = ground arith
ends_continuation (a ∷ b ∷ []) h = ground arith
ends_continuation (a ∷ b ∷ c ∷ []) h = ground arith
ends_continuation (a ∷ b ∷ c ∷ d ∷ s) h = ground arith

cut_back_continuation : (b : Bytes) → AllContinuation b → cut_back b ≡ []
unfolding cut_back
cut_back_continuation [] h = refl
cut_back_continuation (a ∷ b) h =
    rw (ends_continuation (a ∷ b) h, if◌then◌else◌) (cut_back_continuation b h.1)

AllContinuation-rev_onto :
    (b acc : Bytes) → AllContinuation b → AllContinuation acc → AllContinuation (rev_onto b acc)
AllContinuation-rev_onto [] acc h k = k
AllContinuation-rev_onto (a ∷ b) acc h k = AllContinuation-rev_onto b (a ∷ acc) h.1 (h.0, k)

-- Of bytes that are all continuation bytes nothing is left.
pub cut_continuation : (b : Bytes) → AllContinuation b → cut_to_utf8_boundary b ≡ []
unfolding cut_to_utf8_boundary
cut_continuation b h =
    rw (cut_back_continuation (rev_onto b []) (AllContinuation-rev_onto b [] h tt))
