-- ===== src/Cache/Memory/Refines.antt =====
-- The cache of internal/cache/cache.go and its abstract view.
pub mod Run
use mcp_webtools.Prelude.{
  ℕ, ◌≡◌, sym, ap, ◌∙◌, subst, inl, inr, none, some, List, [], ◌∷◌, ◌++◌, arith, Option-cases, pos,
  pos_part, Bytes, same, bytes_discrete,
}
use mcp_webtools.Cache.Table.{
  lookup, remove, total, total-remove, lookup-cons_self, lookup-cons_ne, lookup-remove_ne,
}
use mcp_webtools.Cache.Memory.{
  MemoryCache, Entry, new, delete_locked, expired, get, insert, put, age, expire_all_for_testing,
  second,
}
use mcp_webtools.Cache.Memory.Order.{erase, IsFresh, IsDistinct, erase_self-IsFresh}
use mcp_webtools.Cache.Memory.Link.{IsLinked, lookup-IsFresh, IsFresh-lookup}
use mcp_webtools.Cache.Memory.Sound.{IsSound, sizes, delete_self, delete-IsSound, lookup-delete_ne}
use mcp_webtools.Cache.Memory.Evict.{Evicted}
use mcp_webtools.Cache.Memory.Invariant.{
  IsValid, put-Evicted, put-IsValid, get-IsValid, get_miss, get_stale, get_hit, max-insert, Op,
  getting, putting, expiring, step, run, step-IsValid, new-IsValid, expire_all-IsValid, ttl-insert,
}
use mcp_webtools.Cache.Memory.Reads.{order-delete}
use mcp_webtools.Cache.Memory.Lru.{
  is_old, keys, fit, lru_get, lru_put, lru_step, lru_answers, keys-remove, keys-age, lookup_fresh,
  IsFresh-of_none, lookup-append, fit-append, split_keys, Stops, lookup_at,
}

-- The list that a cache stands for: its keys in the order of use, with the entries of the map.
pub record Shows {ℓ} {V : Type ℓ} (c : MemoryCache V) (t : List (Bytes × Entry V)) : Type ℓ where
  pub same_keys : c.order ≡ keys t
  pub reads : (q : Bytes) → lookup q c.items ≡ lookup q t

module _ {ℓ} {V : Type ℓ} where
  removed :
      (key : Bytes) (t : List (Bytes × Entry V))
      → IsDistinct (keys t)
      → lookup key (remove key t) ≡ none
  removed key t d =
      lookup_fresh key (remove key t) (rw keys-remove (erase_self-IsFresh key (keys t) d))

  module _ (key : Bytes) (c : MemoryCache V) (t : List (Bytes × Entry V)) (s : IsSound c)
      (shows : Shows c t) where
    IsDistinct-keys : IsDistinct (keys t)
    IsDistinct-keys = subst IsDistinct shows.same_keys s.distinct

    reads_deleted :
        (q : Bytes) → Dec (key ≡ q) → lookup q (delete_locked key c).items ≡ lookup q (remove key t)
    reads_deleted q (yes p) =
        subst (λ i. lookup i (delete_locked key c).items ≡ lookup i (remove key t)) p
          ((delete_self key c s).1 ∙ sym (removed key t IsDistinct-keys))
    reads_deleted q (no p) =
        lookup-delete_ne key q c p ∙ shows.reads q ∙ sym (lookup-remove_ne key q t p)

    pub delete-Shows : Shows (delete_locked key c) (remove key t)
    delete-Shows = record {
      same_keys = order-delete key c s ∙ ap (erase key) shows.same_keys ∙ sym (keys-remove key t);
      reads = λ q. reads_deleted q (bytes_discrete key q);
    }

    reads_touched :
        (e : Entry V) (q : Bytes)
        → lookup key c.items ≡ some e
        → Dec (key ≡ q)
        → lookup q c.items ≡ lookup q ((key, e) ∷ remove key t)
    reads_touched e q hit (yes p) =
        subst (λ i. lookup i c.items ≡ lookup i ((key, e) ∷ remove key t)) p
          (hit ∙ sym (lookup-cons_self key e (remove key t)))
    reads_touched e q hit (no p) =
        shows.reads q
        ∙ sym (lookup-remove_ne key q t p)
        ∙ sym (lookup-cons_ne key q e (remove key t) p)

    pub touch-Shows :
        (e : Entry V)
        → lookup key c.items ≡ some e
        → Shows (record c { order = key ∷ erase key c.order }) ((key, e) ∷ remove key t)
    touch-Shows e hit = record {
      same_keys =
          ap (λ (ks : List Bytes). key ∷ erase key ks) shows.same_keys
          ∙ ap (◌∷◌ key) (sym (keys-remove key t));
      reads = λ q. reads_touched e q hit (bytes_discrete key q);
    }

  pub insert-Shows :
      (key : Bytes) (v : V) (size now : ℕ) (c : MemoryCache V) (t : List (Bytes × Entry V))
      → Shows c t
      → Shows
          (insert key v size now c)
          ((key, record { value = v; size = size; stored_at = now }) ∷ t)
  unfolding insert lookup
  insert-Shows key v size now c t shows = record {
    same_keys = ap (◌∷◌ key) shows.same_keys;
    reads = λ q. ground (arith, shows.reads q);
  }

  reads_rest :
      (k : Bytes) (ks : List Bytes) (d : Entry V) (items t : List (Bytes × Entry V)) (q : Bytes)
      → IsLinked ks (remove k items)
      → IsFresh k ks
      → lookup k t ≡ none
      → lookup q items ≡ lookup q ((k, d) ∷ t)
      → Dec (k ≡ q)
      → lookup q (remove k items) ≡ lookup q t
  reads_rest k ks d items t q linked fresh gone same (yes p) =
      subst (λ i. lookup i (remove k items) ≡ lookup i t) p
        (lookup-IsFresh k ks (remove k items) linked fresh ∙ sym gone)
  reads_rest k ks d items t q linked fresh gone same (no p) =
      lookup-remove_ne k q items p ∙ same ∙ lookup-cons_ne k q d t p

  -- The list of a valid cache has the sizes of the map.
  sizes_shown :
      (ks : List Bytes) (items : List (Bytes × Entry V)) (t : List (Bytes × Entry V))
      → IsLinked ks items
      → IsDistinct ks
      → ks ≡ keys t
      → ((q : Bytes) → lookup q items ≡ lookup q t)
      → sizes items ≡ sizes t
  unfolding total
  sizes_shown [] items [] linked distinct e same = ap sizes linked
  sizes_shown [] items ((j, d) ∷ t) linked distinct e same = cc
  sizes_shown (k ∷ ks) items [] linked distinct e same = cc
  sizes_shown (k ∷ ks) items ((j, d) ∷ t) linked distinct e same =
      let e_k : j ≡ k = ground arith in
      let e_ks : ks ≡ keys t = ground arith in
      let e_d : linked.0 ≡ d = ground (arith, linked.1, same k, lookup-cons_self k d t, e_k) in
      let fresh : lookup k t ≡ none = lookup_fresh k t (subst (IsFresh k) e_ks distinct.0) in
      omega (
        arith,
        total-remove (λ (i : Entry V). i.size) k linked.0 items linked.1,
        ap (λ (i : Entry V). i.size) e_d,
        sizes_shown ks (remove k items) t linked.2 distinct.1 e_ks (λ q.
            reads_rest k ks d items t q linked.2 distinct.0 fresh (rw e_k at (same q))
              (bytes_discrete k q)),
      )

  -- What the eviction leaves is the longest front that fits.
  module _ (c r : MemoryCache V) (t : List (Bytes × Entry V)) (m : ℕ) (s : IsSound c)
      (shows : Shows c t) (left : Evicted c r) (budget : c.max_bytes ≡ pos m) where
    IsDistinct-of : IsDistinct (keys t)
    IsDistinct-of = subst IsDistinct shows.same_keys s.distinct

    reads_left :
        (xs ys : List (Bytes × Entry V))
        → t ≡ xs ++ ys
        → keys xs ≡ r.order
        → (q : Bytes) → lookup q r.items ≡ lookup q xs
    reads_left xs ys split front q = elim (Option-cases (lookup q r.items)) [
      | inl gone ↦
          gone
          ∙ sym (
              lookup_fresh q xs
                (rw front (IsFresh-lookup q r.order r.items left.sound.linked gone)))
      | inr (e, held) ↦ elim (Option-cases (lookup q xs)) [
        | inl gone ↦ absurd (
            cc (
              held,
              lookup-IsFresh q r.order r.items left.sound.linked
                  (rw front at (IsFresh-of_none q xs gone)),
            ))
        | inr (d, found) ↦
            ground (
              arith,
              left.reads q,
              shows.reads q,
              lookup-append q xs ys d found,
              ap (lookup q) split,
            )
      ]
    ]

    Stops-after :
        (xs ys : List (Bytes × Entry V))
        → t ≡ xs ++ ys
        → keys xs ≡ r.order
        → keys ys ≡ left.gone
        → sizes r.items ≡ sizes xs
        → Stops m (sizes xs) ys
    Stops-after xs [] split front back total_xs = tt
    Stops-after xs ((k, d) ∷ ys) split front back total_xs = elim left.needed [
      | inl (_, none_gone) ↦ absurd (cc (back, none_gone))
      | inr (j, e, rest, g, l, over) ↦
          let j-k : k ≡ j = ground (arith, back, g) in
          let held : lookup k c.items ≡ some d =
            shows.reads k
            ∙ ap (lookup k) split
            ∙ lookup_at k d xs ys (subst (λ u. IsDistinct (keys u)) split IsDistinct-of) in
          let e-d : e ≡ d = ground (arith, held, l, ap (λ (i : Bytes). lookup i c.items) j-k) in
          ground
            (arith, over, budget, left.sound.counted, total_xs, ap (λ (i : Entry V). i.size) e-d)
    ]

    pub evicted-Shows : Shows r (fit m t)
    evicted-Shows =
        let (xs, ys, split, front, back) =
          split_keys t r.order left.gone (sym shows.same_keys ∙ left.split) in
        let reads = reads_left xs ys split front in
        let same_total : sizes r.items ≡ sizes xs =
          sizes_shown r.order r.items xs left.sound.linked left.sound.distinct (sym front) reads in
        let fitted : fit m t ≡ xs =
          ap (fit m) split
          ∙ fit-append m xs ys
              (omega (arith, same_total, left.sound.counted, left.fits, ap pos_part budget))
              (Stops-after xs ys split front back same_total) in
        rw fitted (record { same_keys = sym front; reads = reads })
