-- ===== src/Utf8/Valid.antt =====
-- Well-formed UTF-8, as a sequence of runes.
use mcp_webtools.Prelude.{ℕ, ◌+◌, ◌≤◌, ◌<◌, min, ◌≡◌, true, [], ◌∷◌, length, take, drop, Bytes}
use mcp_webtools.Utf8.{is_rune2, is_rune3, is_rune4}

pub data IsUtf8 : Bytes → Type 0 where
  empty : IsUtf8 []
  one : {a : ℕ} {s : Bytes} → a < 0x80 → IsUtf8 s → IsUtf8 (a ∷ s)
  two : {a b : ℕ} {s : Bytes} → is_rune2 a b ≡ true → IsUtf8 s → IsUtf8 (a ∷ b ∷ s)
  three : {a b c : ℕ} {s : Bytes} → is_rune3 a b c ≡ true → IsUtf8 s → IsUtf8 (a ∷ b ∷ c ∷ s)
  four : {a b c d : ℕ} {s : Bytes} → is_rune4 a b c d ≡ true → IsUtf8 s → IsUtf8 (a ∷ b ∷ c ∷ d ∷ s)

-- `m` bytes of the text are the runes that lie whole within its first `n` bytes.
pub record WholeRunes (s : Bytes) (n m : ℕ) : Type 0 where
  pub within : m ≤ n
  pub near : min n (length s) < m + 4
  pub before : IsUtf8 (take m s)
  pub after : IsUtf8 (drop m s)
