-- ===== src/Cache/Memory/Order.antt =====
-- Key lists: container/list as the cache uses it, front first.
use mathlib.Core.List.{get_last?}
use mcp_webtools.Prelude.{
  ◌≡◌, refl, ap, subst, ◌≢◌, ◌⊎◌, inl, inr, some, List, [], ◌∷◌, ◌++◌, arith, Bytes, bytes_discrete,
}

-- `Remove` of the element that holds the key.
unfoldable pub erase : Bytes → List Bytes → List Bytes
erase k [] = []
erase k (j ∷ ks) = elim (bytes_discrete j k) [ yes _ ↦ ks | no _ ↦ j ∷ erase k ks ]

pub erase_head : (k : Bytes) (ks : List Bytes) → erase k (k ∷ ks) ≡ ks
unfolding erase
erase_head k ks = ground arith

pub erase_tail : (k j : Bytes) (ks : List Bytes) → j ≢ k → erase k (j ∷ ks) ≡ j ∷ erase k ks
unfolding erase
erase_tail k j ks h = ground arith

abbrev pub IsFresh : Bytes → List Bytes → Type 0
IsFresh k [] = Unit {0}
IsFresh k (j ∷ ks) = (j ≢ k) × IsFresh k ks

abbrev pub IsDistinct : List Bytes → Type 0
IsDistinct [] = Unit {0}
IsDistinct (k ∷ ks) = IsFresh k ks × IsDistinct ks

erase-IsFresh : (k j : Bytes) (ks : List Bytes) → IsFresh k ks → IsFresh k (erase j ks)
unfolding erase
erase-IsFresh k j [] h = tt
erase-IsFresh k j (i ∷ ks) h = ground (arith, erase-IsFresh k j ks)

pub erase-IsDistinct : (k : Bytes) (ks : List Bytes) → IsDistinct ks → IsDistinct (erase k ks)
unfolding erase
erase-IsDistinct k [] h = tt
erase-IsDistinct k (j ∷ ks) h = ground (arith, erase-IsDistinct k ks h.1, erase-IsFresh j k ks h.0)

pub erase_self-IsFresh : (k : Bytes) (ks : List Bytes) → IsDistinct ks → IsFresh k (erase k ks)
unfolding erase
erase_self-IsFresh k [] h = tt
erase_self-IsFresh k (j ∷ ks) h = ground (arith, erase_self-IsFresh k ks h.1)

pub erase_fresh : (k : Bytes) (ks : List Bytes) → IsFresh k ks → erase k ks ≡ ks
unfolding erase
erase_fresh k [] h = refl
erase_fresh k (j ∷ ks) h = ground (arith, erase_fresh k ks h.1)

record Back (k : Bytes) (ks : List Bytes) : Type 0 where
  before : List Bytes
  last : Bytes
  split : k ∷ ks ≡ before ++ last ∷ []
  back : get_last? (k ∷ ks) ≡ some last

Back-of : (k : Bytes) (ks : List Bytes) → Back k ks
Back-of k [] = record { before = []; last = k; split = refl; back = refl }
Back-of k (j ∷ ks) =
    let b = Back-of j ks in
    record { before = k ∷ b.before; last = b.last; split = ap (◌∷◌ k) b.split; back = b.back }

pub fresh_last : (j k : Bytes) (ks : List Bytes) → IsFresh j (ks ++ k ∷ []) → k ≢ j
fresh_last j k [] h = h.0
fresh_last j k (i ∷ ks) h = fresh_last j k ks h.1

pub erase-append_last :
    (k : Bytes) (ks : List Bytes) → IsDistinct (ks ++ k ∷ []) → erase k (ks ++ k ∷ []) ≡ ks
unfolding erase
erase-append_last k [] h = ground arith
erase-append_last k (j ∷ ks) h = ground (arith, erase-append_last k ks h.1, fresh_last j k ks h.0)

-- A key in front is alone, or the list ends with another one.
pub back_cases :
    (k : Bytes) (ks : List Bytes)
    → IsDistinct (k ∷ ks)
    → (ks ≡ [])
      ⊎ ((inner : List Bytes) × (last : Bytes) × (ks ≡ inner ++ last ∷ [])
          × (last ≢ k)
          × (get_last? (k ∷ ks) ≡ some last))
back_cases k [] d = inl refl
back_cases k (j ∷ ks) d =
    let b = Back-of j ks in
    inr (
      b.before,
      b.last,
      b.split,
      fresh_last k b.last b.before (subst (IsFresh k) b.split d.0),
      b.back,
    )
