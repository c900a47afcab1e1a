-- ===== src/Cache/Memory/Charged.antt =====
-- What the sizes that a cache was given say of the values that it holds.
use mathlib.Core.List.{get_last?}
use mcp_webtools.Prelude.{
  ℕ, zero, suc, ◌≤◌, ◌≡◌, refl, sym, subst, ◌⊎◌, inl, inr, List, [], ◌∷◌, arith, Bool-cases,
  Option-cases, ℤ, pos_part, Bytes, bytes_discrete,
}
use mcp_webtools.Cache.Table.{lookup, remove, total}
use mcp_webtools.Cache.Memory.{
  MemoryCache, Entry, delete_locked, expired, insert, over_budget, evict, new, get, put,
}
use mcp_webtools.Cache.Memory.Sound.{sizes, delete_hit, delete_miss}
use mcp_webtools.Cache.Memory.Invariant.{IsValid, get_miss, get_stale, get_hit, put-evict}

-- The bytes of the values in the table, by this measure.
abbrev pub held_bytes {ℓ} : {V : Type ℓ} → (V → ℕ) → MemoryCache V → ℕ
held_bytes weigh c = total (λ e. weigh e.value) c.items

module _ {ℓ} {V : Type ℓ} (weigh : V → ℕ) where
  abbrev pub AreCharged : List (Bytes × Entry V) → Type 0
  AreCharged [] = Unit
  AreCharged ((k, e) ∷ items) = (e.size ≡ weigh e.value) × AreCharged items

  -- Every entry was stored with its value's size.
  abbrev pub IsCharged : MemoryCache V → Type 0
  IsCharged c = AreCharged c.items

  AreCharged-remove :
      (k : Bytes) (items : List (Bytes × Entry V)) → AreCharged items → AreCharged (remove k items)
  unfolding remove
  AreCharged-remove k [] h = tt
  AreCharged-remove k ((j, e) ∷ items) h =
      elim (bytes_discrete j k)
        as (λ d. AreCharged (elim d [ yes _ ↦ items | no _ ↦ (j, e) ∷ remove k items ])) [
          | yes here ↦ h.1
          | no other ↦ (h.0, AreCharged-remove k items h.1)
        ]

  IsCharged-delete : (k : Bytes) (c : MemoryCache V) → IsCharged c → IsCharged (delete_locked k c)
  IsCharged-delete k c h = elim (Option-cases (lookup k c.items)) [
    | inl gone ↦ rw (delete_miss k c gone) h
    | inr (e, here) ↦ rw (delete_hit k c e here) (AreCharged-remove k c.items h)
  ]

  -- What a round of the loop does.
  evict_round :
      (fuel : ℕ) (key : Bytes) (c : MemoryCache V)
      → (evict (suc fuel) key c ≡ c)
        ⊎ ((evict (suc fuel) key c ≡ delete_locked key c)
            ⊎ ((k : Bytes) × (evict (suc fuel) key c ≡ evict fuel key (delete_locked k c))))
  unfolding evict
  evict_round fuel key c = elim (Bool-cases (over_budget c)) [
    | inr within ↦ inl (ground (arith, within))
    | inl over ↦ elim (Option-cases (get_last? c.order)) [
      | inl nothing ↦ inl (ground (arith, over, nothing))
      | inr (k, last) ↦ elim (bytes_discrete k key) [
        | yes own ↦ inr (inl (ground (arith, over, last, own)))
        | no other ↦ inr (inr (k, ground (arith, over, last, other)))
      ]
    ]
  ]

  IsCharged-evict :
      (fuel : ℕ) (key : Bytes) (c : MemoryCache V) → IsCharged c → IsCharged (evict fuel key c)
  unfolding evict
  IsCharged-evict zero key c h = h
  IsCharged-evict (suc fuel) key c h = elim (evict_round fuel key c) [
    | inl stays ↦ subst IsCharged (sym stays) h
    | inr (inl own) ↦ subst IsCharged (sym own) (IsCharged-delete key c h)
    | inr (inr (k, next)) ↦
        subst IsCharged (sym next)
          (IsCharged-evict fuel key (delete_locked k c) (IsCharged-delete k c h))
  ]

  pub IsCharged-new : (max_bytes ttl : ℤ) → IsCharged (new {V = V} max_bytes ttl)
  unfolding new
  IsCharged-new max_bytes ttl = tt

  pub IsCharged-get :
      (k : Bytes) (now : ℕ) (c : MemoryCache V) → IsCharged c → IsCharged (get k now c).0
  IsCharged-get k now c h = elim (Option-cases (lookup k c.items)) [
    | inl gone ↦ rw (get_miss k now c gone) h
    | inr (e, here) ↦ elim (Bool-cases (expired now c e)) [
      | inl old ↦ rw (get_stale k now c e here old) (IsCharged-delete k c h)
      | inr live ↦ rw (get_hit k now c e here live) h
    ]
  ]

  -- A Put with the value's size.
  pub IsCharged-put :
      (k : Bytes) (v : V) (now : ℕ) (c : MemoryCache V)
      → IsCharged c
      → IsCharged (put k v (weigh v) now c)
  unfolding insert
  IsCharged-put k v now c h = rw put-evict (
      IsCharged-evict _ k (insert k v (weigh v) now (delete_locked k c))
        (refl, IsCharged-delete k c h))

  total-sizes :
      (items : List (Bytes × Entry V))
      → AreCharged items
      → total (λ e. weigh e.value) items ≡ sizes items
  unfolding total
  total-sizes [] h = refl
  total-sizes ((k, e) ∷ items) h = omega (arith, h.0, total-sizes items h.1)

  -- The bytes that a valid cache holds are within its budget.
  pub held_bytes_bound :
      (c : MemoryCache V) → IsValid c → IsCharged c → held_bytes weigh c ≤ pos_part c.max_bytes
  held_bytes_bound c v h = omega (arith, total-sizes c.items h, v.sound.counted, v.fits)
