-- ===== src/Cache/Memory/Reads.antt =====
-- What a later `Get` returns, and which entries a `Put` costs.
use mcp_webtools.Prelude.{
  ℕ, ◌+◌, ◌≤◌, ◌<◌, ◌≡◌, refl, sym, ap, ◌∙◌, ◌≢◌, ◌⊎◌, inl, inr, true, ◌&&◌, ◌||◌, none, some, List,
  [], ◌∷◌, ◌++◌, arith, ltb, if◌then◌else◌, lt→ltb, Option-cases, pos, pos_part, sub_ℕ, ltb_ℤ,
  Bytes,
}
use mcp_webtools.Cache.Table.{lookup, total-remove, lookup-cons_self, lookup-cons_ne}
use mcp_webtools.Cache.Memory.{MemoryCache, Entry, delete_locked, expired, get, insert, put}
use mcp_webtools.Cache.Memory.Order.{erase, erase_fresh}
use mcp_webtools.Cache.Memory.Link.{IsLinked, IsFresh-lookup, lookup-IsFresh}
use mcp_webtools.Cache.Memory.Sound.{IsSound, delete_hit, delete_miss, lookup-delete_ne, empty_used}
use mcp_webtools.Cache.Memory.Evict.{Evicted}
use mcp_webtools.Cache.Memory.Invariant.{IsValid, put-Evicted, max-insert, ttl-insert}

front_of :
    {key : Bytes} {ks : List Bytes} (xs ys : List Bytes)
    → key ∷ ks ≡ xs ++ ys
    → (xs ≡ []) ⊎ ((rest : List Bytes) × (xs ≡ key ∷ rest))
front_of [] ys e = inl refl
front_of (x ∷ xs) ys e = inr (xs, ground arith)

module _ {ℓ} {V : Type ℓ} where
  pub order-delete :
      (k : Bytes) (c : MemoryCache V) → IsSound c → (delete_locked k c).order ≡ erase k c.order
  order-delete k c s = elim (Option-cases (lookup k c.items)) [
    | inl e ↦
        rw (delete_miss k c e)
          (sym (erase_fresh k c.order (IsFresh-lookup k c.order c.items s.linked e)))
    | inr (e, h) ↦ rw (delete_hit k c e h) refl
  ]

  -- What a `Put` leaves: the most recent keys, as many as the budget allows.
  pub record LeastRecentGone (key : Bytes) (v : V) (size now : ℕ) (c r : MemoryCache V)
      : Type ℓ where
    pub gone : List Bytes
    pub split : key ∷ erase key c.order ≡ r.order ++ gone
    pub reads :
        (q : Bytes) → q ≢ key → (lookup q r.items ≡ none) ⊎ (lookup q r.items ≡ lookup q c.items)
    pub needed :
        (gone ≡ [])
        ⊎ ((k : Bytes) × (e : Entry V) × (rest : List Bytes) × (gone ≡ k ∷ rest)
            × (lookup k (insert key v size now (delete_locked key c)).items ≡ some e)
            × (ltb_ℤ c.max_bytes (pos (r.used + e.size)) ≡ true))

  needed_after :
      (key : Bytes) (v : V) (size now : ℕ) (c : MemoryCache V)
      → IsSound c
      → (r : Evicted (insert key v size now (delete_locked key c)) (put key v size now c))
      → ((put key v size now c ≡ insert key v size now (delete_locked key c)) × (r.gone ≡ []))
        ⊎ ((k : Bytes) × (e : Entry V) × (rest : List Bytes) × (r.gone ≡ k ∷ rest)
            × (lookup k (insert key v size now (delete_locked key c)).items ≡ some e)
            × (ltb_ℤ
                  (insert key v size now (delete_locked key c)).max_bytes
                  (pos ((put key v size now c).used + e.size))
                ≡ true))
      → (r.gone ≡ [])
        ⊎ ((k : Bytes) × (e : Entry V) × (rest : List Bytes) × (r.gone ≡ k ∷ rest)
            × (lookup k (insert key v size now (delete_locked key c)).items ≡ some e)
            × (ltb_ℤ c.max_bytes (pos ((put key v size now c).used + e.size)) ≡ true))
  needed_after key v size now c s r (inl (_, g)) = inl g
  needed_after key v size now c s r (inr (k, e, rest, g, l, o)) =
      inr (k, e, rest, g, l, rw (max-insert key v size now c) at o)

  -- A Put on a valid cache leaves a prefix of the recency list with the key in front: only least
  -- recently used keys go, no more than the budget asks for, and every other key reads as before
  -- or is gone.
  pub put-LeastRecentGone :
      (key : Bytes) (v : V) (size now : ℕ) (c : MemoryCache V)
      → IsValid c
      → LeastRecentGone key v size now c (put key v size now c)
  unfolding insert
  put-LeastRecentGone key v size now c h =
      let r = put-Evicted key v size now c h.sound in
      record {
        gone = r.gone;
        split = ap (◌∷◌ key) (sym (order-delete key c h.sound)) ∙ r.split;
        reads = λ q other. ground (
          arith,
          r.reads q,
          lookup-cons_ne key q (record { value = v; size = size; stored_at = now })
              (delete_locked key c).items,
          lookup-delete_ne key q c,
        );
        needed = needed_after key v size now c h.sound r r.needed;
      }

  module _ (key : Bytes) (v : V) (size now : ℕ) (c : MemoryCache V) {m : ℕ} (h : IsValid c)
      (budget : c.max_bytes ≡ pos m) where
    abbrev fresh_entry : Entry V
    fresh_entry = record { value = v; size = size; stored_at = now }

    abbrev after : MemoryCache V
    after = put key v size now c

    abbrev stored : MemoryCache V
    stored = insert key v size now (delete_locked key c)

    lookup-stored : lookup key stored.items ≡ some fresh_entry
    unfolding insert
    lookup-stored = lookup-cons_self key fresh_entry (delete_locked key c).items

    loop : Evicted stored after
    loop = put-Evicted key v size now c h.sound

    after-max : after.max_bytes ≡ pos m
    after-max = loop.same_max ∙ max-insert key v size now c ∙ budget

    size_of_held : (e : Entry V) → lookup key after.items ≡ some e → (e ≡ fresh_entry) × (size ≤ m)
    size_of_held e hit =
        let same_entry : e ≡ fresh_entry = ground (arith, loop.reads key, lookup-stored) in
        (
          same_entry,
          omega (
            arith,
            ap (λ (d : Entry V). d.size) same_entry,
            loop.sound.counted,
            loop.fits,
            ap pos_part (max-insert key v size now c ∙ budget),
            total-remove (λ (d : Entry V). d.size) key e after.items hit,
          ),
        )

    front : (after.order ≡ []) ⊎ ((rest : List Bytes) × (after.order ≡ key ∷ rest))
    unfolding insert
    front = front_of after.order loop.gone loop.split

    size_of_gone : after.order ≡ [] → m < size
    unfolding insert
    size_of_gone e =
        let all_gone : key ∷ (delete_locked key c).order ≡ loop.gone = rw e at loop.split in
        elim loop.needed [
          | inl (_, g) ↦ absurd (cc (all_gone, g))
          | inr (k, d, rest, g, l, o) ↦
              let k-key : k ≡ key = cc (all_gone, g) in
              let same_entry : d ≡ fresh_entry =
                ground (arith, lookup-stored, l, ap (λ (i : Bytes). lookup i stored.items) k-key) in
              ground (
                arith,
                o,
                (empty_used after loop.sound e).1,
                ap (λ (i : Entry V). i.size) same_entry,
                max-insert key v size now c,
                budget,
              )
        ]

    -- The new entry is held exactly when it fits the budget on its own.
    lookup-after : lookup key after.items ≡ (if ltb m size then none else some fresh_entry)
    lookup-after = elim front [
      | inl e ↦
          rw (lt→ltb m size (size_of_gone e))
            (lookup-IsFresh key after.order after.items loop.sound.linked (rw e tt))
      | inr (rest, e) ↦
          let (d, hit, _) =
            let linked : IsLinked (key ∷ rest) after.items = rw e at loop.sound.linked in linked in
          let (same_entry, fit) = size_of_held d hit in
          ground (arith, hit, ap (λ (i : Entry V). some i) same_entry)
    ]

    -- In a valid cache with a budget that is not negative, a Get after a Put of the same key
    -- returns the value, unless its size exceeds the budget or the time to live has passed by
    -- then.
    pub get-put :
        (later : ℕ)
        → (get key later after).1 ≡ (
            if ltb m size || (ltb_ℤ (pos 0) c.ttl && ltb_ℤ c.ttl (sub_ℕ later now))
            then none
            else some v)
    unfolding get expired
    get-put later = ground (arith, lookup-after, loop.same_ttl, ttl-insert key v size now c)

    -- A Put of an entry larger than the whole budget on a valid cache empties it.
    pub put_oversized : m < size → (after.order ≡ []) × (after.items ≡ []) × (after.used ≡ 0)
    put_oversized over = elim front [
      | inl e ↦ (e, (empty_used after loop.sound e).0, (empty_used after loop.sound e).1)
      | inr (rest, e) ↦
          let linked : IsLinked (key ∷ rest) after.items = rw e at loop.sound.linked in
          absurd (omega (arith, (size_of_held linked.0 linked.1).1))
    ]
