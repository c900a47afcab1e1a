-- ===== src/Cache/Memory/Sound.antt =====
-- What the map, the list and the counter have to do with one another.
use mcp_webtools.Prelude.{
  ℕ, ◌-◌, ◌≡◌, ap, ◌∙◌, ◌≢◌, inl, inr, none, some, List, [], arith, Option-cases, Bytes,
}
use mcp_webtools.Cache.Table.{lookup, remove, total, total-remove, lookup-remove_ne}
use mcp_webtools.Cache.Memory.{MemoryCache, Entry, delete_locked, insert}
use mcp_webtools.Cache.Memory.Order.{
  erase, IsFresh, IsDistinct, erase-IsDistinct, erase_self-IsFresh,
}
use mcp_webtools.Cache.Memory.Link.{
  IsLinked, erase-IsLinked, insert-IsLinked, lookup-IsFresh, IsFresh-lookup,
}

abbrev pub sizes {ℓ} : {V : Type ℓ} → List (Bytes × Entry V) → ℕ
sizes = total (λ e. e.size)

pub record IsSound {ℓ} {V : Type ℓ} (c : MemoryCache V) : Type ℓ where
  pub linked : IsLinked c.order c.items
  pub distinct : IsDistinct c.order
  pub counted : c.used ≡ sizes c.items

module _ {ℓ} {V : Type ℓ} where
  pub delete_hit :
      (k : Bytes) (c : MemoryCache V) (e : Entry V)
      → lookup k c.items ≡ some e
      → delete_locked k c
        ≡ record c { items = remove k c.items; order = erase k c.order; used = c.used - e.size }
  unfolding delete_locked
  delete_hit k c e h = rw (h, delete_locked)

  pub delete_miss :
      (k : Bytes) (c : MemoryCache V) → lookup k c.items ≡ none → delete_locked k c ≡ c
  unfolding delete_locked
  delete_miss k c h = rw (h, delete_locked)

  pub delete_keeps :
      (k : Bytes) (c : MemoryCache V)
      → ((delete_locked k c).max_bytes ≡ c.max_bytes) × ((delete_locked k c).ttl ≡ c.ttl)
  unfolding delete_locked
  delete_keeps k c = ground arith

  pub lookup-delete_ne :
      (k q : Bytes) (c : MemoryCache V)
      → k ≢ q
      → lookup q (delete_locked k c).items ≡ lookup q c.items
  unfolding delete_locked
  lookup-delete_ne k q c h = ground (arith, lookup-remove_ne k q c.items)

  pub delete-IsSound : (k : Bytes) (c : MemoryCache V) → IsSound c → IsSound (delete_locked k c)
  delete-IsSound k c s = elim (Option-cases (lookup k c.items)) [
    | inl e ↦ rw (delete_miss k c e) s
    | inr (e, h) ↦ rw (delete_hit k c e h) (record {
      linked = erase-IsLinked k c.order c.items s.linked;
      distinct = erase-IsDistinct k c.order s.distinct;
      counted = omega (arith, s.counted, total-remove (λ e. e.size) k e c.items h);
    })
  ]

  pub insert-IsSound :
      (k : Bytes) (v : V) (size now : ℕ) (c : MemoryCache V)
      → IsFresh k c.order
      → IsSound c
      → IsSound (insert k v size now c)
  unfolding insert total
  insert-IsSound k v size now c f s = record {
    linked = insert-IsLinked k _ c.order c.items s.linked;
    distinct = (f, s.distinct);
    counted = omega (arith, s.counted);
  }

  -- A deleted key is gone from the map and from the list.
  pub delete_self :
      (k : Bytes) (c : MemoryCache V)
      → IsSound c
      → IsFresh k (delete_locked k c).order × (lookup k (delete_locked k c).items ≡ none)
  delete_self k c s = elim (Option-cases (lookup k c.items)) [
    | inl e ↦ rw (delete_miss k c e) (IsFresh-lookup k c.order c.items s.linked e, e)
    | inr (e, h) ↦
        let fresh = erase_self-IsFresh k c.order s.distinct in
        rw (delete_hit k c e h)
          (fresh, lookup-IsFresh k _ _ (erase-IsLinked k c.order c.items s.linked) fresh)
  ]

  pub empty_used : (c : MemoryCache V) → IsSound c → c.order ≡ [] → (c.items ≡ []) × (c.used ≡ 0)
  unfolding total
  empty_used c s e =
      let none_left : c.items ≡ [] = rw e at s.linked in (none_left, s.counted ∙ ap sizes none_left)
