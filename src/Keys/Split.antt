-- ===== src/Keys/Split.antt =====
-- A joined key determines its parts, where one of them holds no NUL.
use mcp_webtools.Prelude.{◌≡◌, subst, [], ◌∷◌, ◌++◌, arith, Bytes}
use mcp_webtools.Keys.{join}
use mcp_webtools.Keys.Decimal.{HasNoNul}

-- The first part holds no NUL: the caller's ID.
pub join-injective :
    (a a' b b' : Bytes) → HasNoNul a → HasNoNul a' → join a b ≡ join a' b' → (a ≡ a') × (b ≡ b')
join-injective [] [] b b' h h' e = ground arith
join-injective [] (x ∷ a') b b' h h' e = absurd (ground arith)
join-injective (x ∷ a) [] b b' h h' e = absurd (ground arith)
join-injective (x ∷ a) (y ∷ a') b b' h h' e =
    let rest = join-injective a a' b b' h.1 h'.1 (ground arith) in ground (arith, rest)

nul_inside : (a b : Bytes) → ¬ HasNoNul (a ++ 0 ∷ b)
nul_inside [] b h = omega arith
nul_inside (c ∷ a) b h = nul_inside a b h.1

-- The last part holds no NUL: a printed number. The first may hold some.
pub join-injective_last :
    (a a' b b' : Bytes) → HasNoNul b → HasNoNul b' → join a b ≡ join a' b' → (a ≡ a') × (b ≡ b')
join-injective_last [] [] b b' h h' e = ground arith
join-injective_last [] (x ∷ a') b b' h h' e =
    let inside : b ≡ a' ++ 0 ∷ b' = ground arith in
    absurd (nul_inside a' b' (subst HasNoNul inside h))
join-injective_last (x ∷ a) [] b b' h h' e =
    let inside : b' ≡ a ++ 0 ∷ b = ground arith in
    absurd (nul_inside a b (subst HasNoNul inside h'))
join-injective_last (x ∷ a) (y ∷ a') b b' h h' e =
    let rest = join-injective_last a a' b b' h h' (ground arith) in ground (arith, rest)
