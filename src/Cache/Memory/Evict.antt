-- ===== src/Cache/Memory/Evict.antt =====
-- The eviction loop of `Put`.
use mathlib.Core.List.{get_last?, append-nil, append_assoc}
use mcp_webtools.Prelude.{
  ℕ, zero, suc, ◌+◌, ◌≤◌, ◌<◌, ◌≡◌, refl, sym, ap, ◌∙◌, ◌≢◌, ◌⊎◌, inl, inr, true, false, none, some,
  List, [], ◌∷◌, ◌++◌, arith, Bool-cases, length, length-append, pos, pos_part, ltb_ℤ, Bytes,
  bytes_discrete,
}
use mcp_webtools.Cache.Table.{lookup, total-remove}
use mcp_webtools.Cache.Memory.{MemoryCache, Entry, delete_locked, over_budget, evict}
use mcp_webtools.Cache.Memory.Order.{back_cases, erase-append_last}
use mcp_webtools.Cache.Memory.Link.{lookup_last}
use mcp_webtools.Cache.Memory.Sound.{
  IsSound, delete-IsSound, delete_self, delete_hit, delete_keeps, lookup-delete_ne, empty_used,
}

module _ {ℓ} {V : Type ℓ} where
  -- The loop leaves `r` of `c`: keys went from the back only, as few as the budget allows, and what
  -- is left fits and reads as before.
  pub record Evicted (c r : MemoryCache V) : Type ℓ where
    pub sound : IsSound r
    pub fits : r.used ≤ pos_part c.max_bytes
    pub same_max : r.max_bytes ≡ c.max_bytes
    pub same_ttl : r.ttl ≡ c.ttl
    pub gone : List Bytes
    pub split : c.order ≡ r.order ++ gone
    pub reads : (q : Bytes) → (lookup q r.items ≡ none) ⊎ (lookup q r.items ≡ lookup q c.items)
    pub needed :
        ((r ≡ c) × (gone ≡ []))
        ⊎ ((k : Bytes) × (e : Entry V) × (rest : List Bytes) × (gone ≡ k ∷ rest)
            × (lookup k c.items ≡ some e)
            × (ltb_ℤ c.max_bytes (pos (r.used + e.size)) ≡ true))

  within_budget : (c : MemoryCache V) → over_budget c ≡ false → c.used ≤ pos_part c.max_bytes
  unfolding over_budget
  within_budget c h = ground arith

  Evicted-refl : (c : MemoryCache V) → IsSound c → over_budget c ≡ false → Evicted c c
  Evicted-refl c s h = record {
    sound = s;
    fits = within_budget c h;
    same_max = refl;
    same_ttl = refl;
    gone = [];
    split = sym (append-nil c.order);
    reads = λ q. inr refl;
    needed = inl (refl, refl);
  }

  module _ (c : MemoryCache V) (ks : List Bytes) (k : Bytes) (s : IsSound c)
      (ends : c.order ≡ ks ++ k ∷ []) (over : over_budget c ≡ true) where
    last_entry : (e : Entry V) × (lookup k c.items ≡ some e)
    last_entry = lookup_last ks k c.items (rw ends at s.linked) (rw ends at s.distinct)

    order-delete_last : (delete_locked k c).order ≡ ks
    order-delete_last =
        rw (delete_hit k c last_entry.0 last_entry.1, ends)
          (erase-append_last k ks (rw ends at s.distinct))

    used-delete_last : (delete_locked k c).used + last_entry.0.size ≡ c.used
    used-delete_last = rw (delete_hit k c last_entry.0 last_entry.1) (
        omega (
          arith,
          s.counted,
          total-remove (λ (e : Entry V). e.size) k last_entry.0 c.items last_entry.1,
        ))

    reads_before :
        (r : MemoryCache V)
        → Evicted (delete_locked k c) r
        → (q : Bytes) → Dec (k ≡ q)
        → (lookup q r.items ≡ none) ⊎ (lookup q r.items ≡ lookup q c.items)
    reads_before r v q (yes p) = inl (ground (arith, v.reads k, delete_self k c s))
    reads_before r v q (no p) = ground (arith, v.reads q, lookup-delete_ne k q c p)

    still :
        (j : Bytes) (e : Entry V)
        → lookup j (delete_locked k c).items ≡ some e
        → Dec (k ≡ j)
        → lookup j c.items ≡ some e
    still j e h (yes p) = ground (arith, (delete_self k c s).1)
    still j e h (no p) = sym (lookup-delete_ne k j c p) ∙ h

    needed_before :
        (r : MemoryCache V) (v : Evicted (delete_locked k c) r)
        → ((r ≡ delete_locked k c) × (v.gone ≡ []))
          ⊎ ((j : Bytes) × (e : Entry V) × (rest : List Bytes) × (v.gone ≡ j ∷ rest)
              × (lookup j (delete_locked k c).items ≡ some e)
              × (ltb_ℤ (delete_locked k c).max_bytes (pos (r.used + e.size)) ≡ true))
        → ((r ≡ c) × (v.gone ++ k ∷ [] ≡ []))
          ⊎ ((j : Bytes) × (e : Entry V) × (rest : List Bytes) × (v.gone ++ k ∷ [] ≡ j ∷ rest)
              × (lookup j c.items ≡ some e)
              × (ltb_ℤ c.max_bytes (pos (r.used + e.size)) ≡ true))
    unfolding over_budget
    needed_before r v (inl (p, g)) = inr (
      k,
      last_entry.0,
      [],
      rw g,
      last_entry.1,
      ground (arith, over, used-delete_last, ap (λ (d : MemoryCache V). d.used) p),
    )
    needed_before r v (inr (j, e, rest, g, h, o)) =
        inr (
          j,
          e,
          rest ++ k ∷ [],
          rw g,
          still j e h (bytes_discrete k j),
          rw (delete_keeps k c).0 at o,
        )

    -- The round that deletes the key at the back, before a rest that leaves `r`.
    Evicted-delete : (r : MemoryCache V) → Evicted (delete_locked k c) r → Evicted c r
    unfolding over_budget
    Evicted-delete r v = record {
      sound = v.sound;
      fits = rw (ap pos_part (delete_keeps k c).0) at v.fits;
      same_max = v.same_max ∙ (delete_keeps k c).0;
      same_ttl = v.same_ttl ∙ (delete_keeps k c).1;
      gone = v.gone ++ k ∷ [];
      split =
          ends
          ∙ ap (λ (l : List Bytes). l ++ k ∷ []) (sym order-delete_last ∙ v.split)
          ∙ append_assoc r.order v.gone (k ∷ []);
      reads = λ q. reads_before r v q (bytes_discrete k q);
      needed = needed_before r v v.needed;
    }

  -- The key that was put is alone, and does not fit.
  Evicted-alone :
      (c : MemoryCache V) (key : Bytes)
      → IsSound c
      → c.order ≡ key ∷ []
      → over_budget c ≡ true
      → Evicted c (delete_locked key c)
  Evicted-alone c key s e over =
      let ends : c.order ≡ [] ++ key ∷ [] = e in
      let empty = order-delete_last c [] key s ends over in
      Evicted-delete c [] key s ends over (delete_locked key c) (record {
        sound = delete-IsSound key c s;
        fits = rw (empty_used _ (delete-IsSound key c s) empty).1 (omega arith);
        same_max = refl;
        same_ttl = refl;
        gone = [];
        split = sym (append-nil _);
        reads = λ q. inr refl;
        needed = inl (refl, refl);
      })

  evict_self :
      (fuel : ℕ) (key : Bytes) (c : MemoryCache V)
      → c.order ≡ key ∷ []
      → over_budget c ≡ true
      → evict (suc fuel) key c ≡ delete_locked key c
  unfolding evict
  evict_self fuel key c e over = ground (arith, over, ap get_last? e)

  evict_back :
      (fuel : ℕ) (key k : Bytes) (c : MemoryCache V)
      → get_last? c.order ≡ some k
      → k ≢ key
      → over_budget c ≡ true
      → evict (suc fuel) key c ≡ evict fuel key (delete_locked k c)
  unfolding evict
  evict_back fuel key k c e other over = ground (arith, over, e)

  -- With a round for each key the loop ends by its own test.
  pub evict-Evicted :
      (fuel : ℕ) (key : Bytes) (ks : List Bytes) (c : MemoryCache V)
      → c.order ≡ key ∷ ks
      → length ks < fuel
      → IsSound c
      → Evicted c (evict fuel key c)
  unfolding evict
  evict-Evicted zero key ks c e h s = absurd (omega arith)
  evict-Evicted (suc fuel) key ks c e h s = elim (Bool-cases (over_budget c)) [
    | inr fits ↦ rw (fits, evict) (Evicted-refl c s fits)
    | inl over ↦ elim (back_cases key ks (rw e at s.distinct)) [
      | inl alone ↦
          let single : c.order ≡ key ∷ [] = e ∙ ap (◌∷◌ key) alone in
          rw (evict_self fuel key c single over) (Evicted-alone c key s single over)
      | inr (inner, k, split, other, back) ↦
          let ends : c.order ≡ (key ∷ inner) ++ k ∷ [] = e ∙ ap (◌∷◌ key) split in
          rw (evict_back fuel key k c (rw e back) other over) (
            Evicted-delete c (key ∷ inner) k s ends over _ (
              evict-Evicted fuel key inner (delete_locked k c)
                (order-delete_last c (key ∷ inner) k s ends over)
                (omega (arith, ap length split, length-append inner (k ∷ [])))
                (delete-IsSound k c s)))
    ]
  ]
