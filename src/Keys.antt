-- ===== src/Keys.antt =====
-- The composite keys of the tools' caches: parts joined by NUL bytes, the last one a number printed by
-- strconv. Used by internal/tools/fetch and internal/tools/search.
pub mod Decimal
pub mod Split
use mcp_webtools.Prelude.{ℕ, zero, suc, ◌+◌, ◌/◌, ◌%◌, [], ◌∷◌, ◌++◌, ltb, if◌then◌else◌, Bytes}

-- strconv.FormatInt(n, 10) of a number that is not negative, with a round for each digit.
unfoldable pub digits : ℕ → ℕ → Bytes
digits zero n = []
digits (suc fuel) n =
    let front = digits fuel (n / 10) in
    if ltb n 10 then (b'0' + n) ∷ [] else front ++ (b'0' + n % 10) ∷ []

unfoldable pub format_int : ℕ → Bytes
unfolding digits
format_int n = digits (suc n) n

-- a + "\x00" + b
abbrev pub join : Bytes → Bytes → Bytes
join a b = a ++ 0 ∷ b
