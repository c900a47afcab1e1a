-- ===== src/Prelude/Text.antt =====
-- Go strings are byte sequences. Literals are written as native strings and read by `codes`; all of
-- them are ASCII.
use Prim.Native.Nat.{ℕ}
use Prim.Native.Char.{code}
use Prim.Native.String.{String}
use mathlib.Core.Path.{◌≡◌, refl}
use mathlib.Core.Logic.{◌↔◌}
use mathlib.Core.Bool.{Bool, true, false, ◌&&◌, ◌||◌}
use mathlib.Core.List.{List, [], ◌∷◌}
use native.Mathlib.Omega.{arith}
use mcp_webtools.Prelude.Tests.{◌==◌, leb, if◌then◌else◌}

abbrev pub Bytes : Type 0
Bytes = List ℕ

abbrev pub codes : String → Bytes
codes String.[] = []
codes (String.◌∷◌ c s) = code c ∷ codes s

-- Go's `==` on strings.
unfoldable pub same : Bytes → Bytes → Bool
same [] [] = true
same (x ∷ xs) (y ∷ ys) = (x == y) && same xs ys
same _ _ = false

pub eq_of_same : (a b : Bytes) → same a b ≡ true → a ≡ b
unfolding same
eq_of_same [] [] h = refl
eq_of_same [] (y ∷ b) h = cc
eq_of_same (x ∷ a) [] h = cc
eq_of_same (x ∷ a) (y ∷ b) h = ground (arith, eq_of_same a b)

pub same_refl : (a : Bytes) → same a a ≡ true
unfolding same
same_refl [] = refl
same_refl (x ∷ a) = ground (arith, same_refl a)

pub same_iff : (a b : Bytes) → (same a b ≡ true) ↔ (a ≡ b)
same_iff a b = (eq_of_same a b, λ e. rw e (same_refl b))

decide_by : {a b : Bytes} (t : Bool) → same a b ≡ t → Dec (a ≡ b)
decide_by {a} {b} true h = yes (eq_of_same a b h)
decide_by {a} {b} false h = no (λ e. cc (h, (same_iff a b).1 e))

unfoldable pub bytes_discrete : Discrete Bytes
unfolding decide_by same
bytes_discrete a b = decide_by (same a b) refl

abbrev pub is_empty : Bytes → Bool
is_empty [] = true
is_empty (x ∷ s) = false

-- `unicode.IsSpace` of a rune of one, two and three bytes.
blank1 : ℕ → Bool
blank1 a = a == 32 || (leb 9 a && leb a 13)

blank2 : ℕ → ℕ → Bool
blank2 a b = a == 0xc2 && (b == 0x85 || b == 0xa0)

blank3 : ℕ → ℕ → ℕ → Bool
blank3 a b c =
    (a == 0xe1 && (b == 0x9a && c == 0x80))
    || ((a == 0xe2 && (b == 0x80 && (leb 0x80 c && leb c 0x8a)))
        || ((a == 0xe2 && (b == 0x80 && (c == 0xa8 || (c == 0xa9 || c == 0xaf))))
            || ((a == 0xe2 && (b == 0x81 && c == 0x9f))
                || (a == 0xe3 && (b == 0x80 && c == 0x80)))))

-- strings.TrimSpace(s) == ""
unfoldable pub is_blank : Bytes → Bool
unfolding blank1 blank2 blank3
is_blank [] = true
is_blank (a ∷ []) = blank1 a
is_blank (a ∷ b ∷ []) = if blank1 a then blank1 b else blank2 a b
is_blank (a ∷ b ∷ c ∷ s) = elim (blank1 a) [
  | true ↦ is_blank (b ∷ c ∷ s)
  | false ↦ elim (blank2 a b) [
    | true ↦ is_blank (c ∷ s)
    | false ↦ elim (blank3 a b c) [ true ↦ is_blank s | false ↦ false ]
  ]
]
