-- ===== src/Utf8/Cut.antt =====
-- `cutToUTF8Boundary` on well-formed text keeps exactly the whole runes.
use mathlib.Core.List.{append-nil}
use mcp_webtools.Prelude.{
  ℕ, zero, suc, ◌≤◌, ◌<◌, ◌≡◌, refl, ap, ◌∙◌, true, false, [], ◌∷◌, arith, if◌then◌else◌, take,
  rev_onto, rev_onto_twice, Bytes,
}
use mcp_webtools.Utf8.{
  in_range, is_continuation, is_rune2, is_second3, is_rune3, is_second4, is_rune4, ends4, ends3,
  ends2, ends_in_rune, cut_back, cut_to_utf8_boundary,
}
use mcp_webtools.Utf8.Valid.{IsUtf8, empty, one, two, three, four, WholeRunes}

-- A text, last byte first, that needs no cut.
abbrev pub IsWhole : Bytes → Type 0
IsWhole acc = cut_back acc ≡ acc

pub IsWhole-of_ends : (acc : Bytes) → ends_in_rune acc ≡ true → IsWhole acc
unfolding cut_back
IsWhole-of_ends [] h = refl
IsWhole-of_ends (a ∷ acc) h = rw (h, if◌then◌else◌)

cut_broken :
    (a : ℕ) (acc : Bytes) → ends_in_rune (a ∷ acc) ≡ false → cut_back (a ∷ acc) ≡ cut_back acc
unfolding cut_back
cut_broken a acc h = rw (h, if◌then◌else◌)

-- A byte that begins a longer rune does not end one.
lead_ends_none : (a : ℕ) (acc : Bytes) → 0xc0 ≤ a → ends_in_rune (a ∷ acc) ≡ false
unfolding ends_in_rune ends2 ends3 ends4 is_rune2 is_rune3 is_rune4 is_continuation in_range
lead_ends_none a [] h = ground arith
lead_ends_none a (b ∷ []) h = ground arith
lead_ends_none a (b ∷ c ∷ []) h = ground arith
lead_ends_none a (b ∷ c ∷ d ∷ acc) h = ground arith

module _ (a b c d : ℕ) (acc : Bytes) where
  whole2 : is_rune2 a b ≡ true → IsWhole (b ∷ a ∷ acc)
  unfolding ends_in_rune ends2 is_rune2 is_continuation in_range
  whole2 h = IsWhole-of_ends _ (ground arith)

  whole3 : is_rune3 a b c ≡ true → IsWhole (c ∷ b ∷ a ∷ acc)
  unfolding ends_in_rune ends2 ends3 is_rune3 is_second3 is_continuation in_range
  whole3 h = IsWhole-of_ends _ (ground arith)

  whole4 : is_rune4 a b c d ≡ true → IsWhole (d ∷ c ∷ b ∷ a ∷ acc)
  unfolding ends_in_rune ends2 ends3 ends4 is_rune4 is_second4 is_continuation in_range
  whole4 h = IsWhole-of_ends _ (ground arith)

ends_two_false : (a b : ℕ) (acc : Bytes) → 0xe0 ≤ a → 0x80 ≤ b → ends_in_rune (b ∷ a ∷ acc) ≡ false
unfolding ends_in_rune ends2 is_rune2 is_continuation in_range
ends_two_false a b acc h k = ground arith

ends_three_false :
    (a b c : ℕ) (acc : Bytes)
    → 0xf0 ≤ a
    → 0x80 ≤ b
    → b ≤ 0xbf
    → 0x80 ≤ c
    → ends_in_rune (c ∷ b ∷ a ∷ acc) ≡ false
unfolding ends_in_rune ends2 ends3 is_rune3 is_continuation in_range
ends_three_false a b c acc h k l m = ground arith

ends_one : (a : ℕ) (acc : Bytes) → a < 0x80 → ends_in_rune (a ∷ acc) ≡ true
unfolding ends_in_rune
ends_one a acc h = ground arith

rune2_bounds : (a b : ℕ) → is_rune2 a b ≡ true → 0xc0 ≤ a
unfolding is_rune2 in_range
rune2_bounds a b h = ground arith

rune3_bounds : (a b c : ℕ) → is_rune3 a b c ≡ true → (0xe0 ≤ a) × (0x80 ≤ b)
unfolding is_rune3 is_second3 is_continuation in_range
rune3_bounds a b c h = ground arith

rune4_bounds :
    (a b c d : ℕ) → is_rune4 a b c d ≡ true → (0xf0 ≤ a) × (0x80 ≤ b) × (b ≤ 0xbf) × (0x80 ≤ c)
unfolding is_rune4 is_second4 is_continuation in_range
rune4_bounds a b c d h = ground arith

module _ (a : ℕ) {acc : Bytes} (w : IsWhole acc) where
  cut_lead : 0xc0 ≤ a → cut_back (a ∷ acc) ≡ acc
  cut_lead h = cut_broken a acc (lead_ends_none a acc h) ∙ w

  cut_two : (b : ℕ) → 0xe0 ≤ a → 0x80 ≤ b → cut_back (b ∷ a ∷ acc) ≡ acc
  cut_two b h k = cut_broken b (a ∷ acc) (ends_two_false a b acc h k) ∙ cut_lead (omega arith)

  cut_three :
      (b c : ℕ) → 0xf0 ≤ a → 0x80 ≤ b → b ≤ 0xbf → 0x80 ≤ c → cut_back (c ∷ b ∷ a ∷ acc) ≡ acc
  cut_three b c h k l m =
      cut_broken c (b ∷ a ∷ acc) (ends_three_false a b c acc h k l m) ∙ cut_two b (omega arith) k

-- The cut of the first `n` bytes of `s`, behind whole runes, leaves the runes that fit.
abbrev CutsTo : Bytes → ℕ → Bytes → Type 0
CutsTo s n acc =
    (m : ℕ) × (cut_back (rev_onto (take n s) acc) ≡ rev_onto (take m s) acc) × WholeRunes s n m

none_fits :
    {s : Bytes} (n : ℕ) (acc : Bytes)
    → IsUtf8 s
    → n < 4
    → cut_back (rev_onto (take n s) acc) ≡ acc
    → CutsTo s n acc
none_fits n acc u h e =
    (0, e, record { within = omega arith; near = omega arith; before = empty; after = u })

cut_take : {s : Bytes} (n : ℕ) (acc : Bytes) → IsUtf8 s → IsWhole acc → CutsTo s n acc
cut_take zero acc u w = none_fits 0 acc u (omega arith) w
cut_take (suc n) acc empty w =
    (0, w, record { within = omega arith; near = omega arith; before = empty; after = empty })
cut_take (suc n) acc (one {a = a} h u) w =
    let (m, e, r) = cut_take n (a ∷ acc) u (IsWhole-of_ends _ (ends_one a acc h)) in
    (
      suc m,
      e,
      record {
        within = omega (arith, r.within);
        near = omega (arith, r.near);
        before = one h r.before;
        after = r.after;
      },
    )
cut_take (suc zero) acc (two {a = a} h u) w =
    none_fits 1 acc (two h u) (omega arith) (cut_lead a w (rune2_bounds a _ h))
cut_take (suc (suc n)) acc (two {a = a} {b = b} h u) w =
    let (m, e, r) = cut_take n (b ∷ a ∷ acc) u (whole2 a b 0 0 acc h) in
    (
      suc (suc m),
      e,
      record {
        within = omega (arith, r.within);
        near = omega (arith, r.near);
        before = two h r.before;
        after = r.after;
      },
    )
cut_take (suc zero) acc (three {a = a} {b = b} {c = c} h u) w =
    let l = rune3_bounds a b c h in
    none_fits 1 acc (three h u) (omega arith) (cut_lead a w (omega arith))
cut_take (suc (suc zero)) acc (three {a = a} {b = b} {c = c} h u) w =
    let l = rune3_bounds a b c h in
    none_fits 2 acc (three h u) (omega arith) (cut_two a w b l.0 l.1)
cut_take (suc (suc (suc n))) acc (three {a = a} {b = b} {c = c} h u) w =
    let (m, e, r) = cut_take n (c ∷ b ∷ a ∷ acc) u (whole3 a b c 0 acc h) in
    (
      suc (suc (suc m)),
      e,
      record {
        within = omega (arith, r.within);
        near = omega (arith, r.near);
        before = three h r.before;
        after = r.after;
      },
    )
cut_take (suc zero) acc (four {a = a} {b = b} {c = c} {d = d} h u) w =
    let l = rune4_bounds a b c d h in
    none_fits 1 acc (four h u) (omega arith) (cut_lead a w (omega arith))
cut_take (suc (suc zero)) acc (four {a = a} {b = b} {c = c} {d = d} h u) w =
    let l = rune4_bounds a b c d h in
    none_fits 2 acc (four h u) (omega arith) (cut_two a w b (omega arith) l.1)
cut_take (suc (suc (suc zero))) acc (four {a = a} {b = b} {c = c} {d = d} h u) w =
    let l = rune4_bounds a b c d h in
    none_fits 3 acc (four h u) (omega arith) (cut_three a w b c l.0 l.1 l.2 l.3)
cut_take (suc (suc (suc (suc n)))) acc (four {a = a} {b = b} {c = c} {d = d} h u) w =
    let (m, e, r) = cut_take n (d ∷ c ∷ b ∷ a ∷ acc) u (whole4 a b c d acc h) in
    (
      suc (suc (suc (suc m))),
      e,
      record {
        within = omega (arith, r.within);
        near = omega (arith, r.near);
        before = four h r.before;
        after = r.after;
      },
    )

pub rev_onto_nil : (xs : Bytes) → rev_onto (rev_onto xs []) [] ≡ xs
rev_onto_nil xs = rev_onto_twice xs [] [] ∙ append-nil xs

pub cut_to_utf8_boundary-take :
    {s : Bytes} (n : ℕ)
    → IsUtf8 s
    → (m : ℕ) × (cut_to_utf8_boundary (take n s) ≡ take m s) × WholeRunes s n m
unfolding cut_to_utf8_boundary
cut_to_utf8_boundary-take {s} n u =
    let (m, e, r) = cut_take n [] u (unfold cut_back in refl) in
    (m, ap (λ (l : Bytes). rev_onto l []) e ∙ rev_onto_nil (take m s), r)

IsWhole-text : {s : Bytes} (acc : Bytes) → IsUtf8 s → IsWhole acc → IsWhole (rev_onto s acc)
IsWhole-text acc empty w = w
IsWhole-text acc (one {a = a} h u) w =
    IsWhole-text (a ∷ acc) u (IsWhole-of_ends _ (ends_one a acc h))
IsWhole-text acc (two {a = a} {b = b} h u) w = IsWhole-text (b ∷ a ∷ acc) u (whole2 a b 0 0 acc h)
IsWhole-text acc (three {a = a} {b = b} {c = c} h u) w =
    IsWhole-text (c ∷ b ∷ a ∷ acc) u (whole3 a b c 0 acc h)
IsWhole-text acc (four {a = a} {b = b} {c = c} {d = d} h u) w =
    IsWhole-text (d ∷ c ∷ b ∷ a ∷ acc) u (whole4 a b c d acc h)

-- Well-formed text needs no cut.
pub cut_to_utf8_boundary_text : {s : Bytes} → IsUtf8 s → cut_to_utf8_boundary s ≡ s
unfolding cut_to_utf8_boundary
cut_to_utf8_boundary_text {s} u =
    ap (λ (l : Bytes). rev_onto l []) (IsWhole-text [] u (unfold cut_back in refl)) ∙ rev_onto_nil s
