-- ===== src/Keys/Decimal.antt =====
-- Printed numbers differ, and hold no NUL.
use mcp_webtools.Prelude.{
  ℕ, zero, suc, ◌+◌, ◌-◌, ◌*◌, ◌/◌, ◌%◌, ◌<◌, ◌≡◌, refl, sym, ap, ◌∙◌, inl, inr, [], ◌∷◌, ◌++◌,
  arith, ltb, if◌then◌else◌, Bool-cases, Bytes,
}
use mcp_webtools.Keys.{digits, format_int}

value_from : ℕ → Bytes → ℕ
value_from acc [] = acc
value_from acc (d ∷ ds) = value_from (acc * 10 + (d - b'0')) ds

value_from-append :
    (acc d : ℕ) (ds : Bytes) → value_from acc (ds ++ d ∷ []) ≡ value_from acc ds * 10 + (d - b'0')
unfolding value_from
value_from-append acc d [] = refl
value_from-append acc d (e ∷ ds) = value_from-append (acc * 10 + (e - b'0')) d ds

value-digits : (fuel n : ℕ) → n < fuel → value_from 0 (digits fuel n) ≡ n
unfolding digits
value-digits zero n h = elim h [ ]
value-digits (suc fuel) n h = elim (Bool-cases (ltb n 10)) [
  | inl small ↦ rw (small, if◌then◌else◌) (unfold value_from in omega arith)
  | inr large ↦
      rw (large, if◌then◌else◌)
        (omega (
          arith,
          value_from-append 0 (b'0' + n % 10) (digits fuel (n / 10)),
          value-digits fuel (n / 10) (ground arith),
        ))
]

pub format_int-injective : (m n : ℕ) → format_int m ≡ format_int n → m ≡ n
unfolding format_int
format_int-injective m n e =
    sym (value-digits (suc m) m (omega arith))
    ∙ ap (value_from 0) e
    ∙ value-digits (suc n) n (omega arith)

abbrev pub HasNoNul : Bytes → Type 0
HasNoNul [] = Unit {0}
HasNoNul (c ∷ s) = (0 < c) × HasNoNul s

HasNoNul-append : (s : Bytes) (c : ℕ) → HasNoNul s → 0 < c → HasNoNul (s ++ c ∷ [])
HasNoNul-append [] c h p = (p, tt)
HasNoNul-append (d ∷ s) c h p = (h.0, HasNoNul-append s c h.1 p)

digits-HasNoNul : (fuel n : ℕ) → HasNoNul (digits fuel n)
unfolding digits
digits-HasNoNul zero n = tt
digits-HasNoNul (suc fuel) n = elim (Bool-cases (ltb n 10)) [
  | inl small ↦ rw (small, if◌then◌else◌) (omega arith, tt)
  | inr large ↦
      rw (large, if◌then◌else◌)
        (HasNoNul-append (digits fuel (n / 10)) _ (digits-HasNoNul fuel (n / 10)) (omega arith))
]

pub format_int-HasNoNul : (n : ℕ) → HasNoNul (format_int n)
unfolding format_int
format_int-HasNoNul n = digits-HasNoNul (suc n) n
