-- ===== src/Cache/Memory/Invariant.antt =====
-- Every method keeps the cache well formed and within its budget.
use mcp_webtools.Prelude.{
  ℕ, suc, ◌≤◌, ◌≡◌, refl, sym, ◌∙◌, inl, inr, true, false, none, some, List, [], ◌∷◌, arith,
  Bool-cases, Option-cases, length, ℤ, pos_part, Bytes,
}
use mcp_webtools.Cache.Table.{lookup, remove, total}
use mcp_webtools.Cache.Memory.{
  MemoryCache, Entry, new, delete_locked, expired, get, insert, put, evict, len, age,
  expire_all_for_testing,
}
use mcp_webtools.Cache.Memory.Order.{erase, erase-IsDistinct, erase_self-IsFresh}
use mcp_webtools.Cache.Memory.Link.{IsLinked, touch-IsLinked, length-IsLinked}
use mcp_webtools.Cache.Memory.Sound.{
  IsSound, sizes, delete-IsSound, delete_self, delete_keeps, insert-IsSound,
}
use mcp_webtools.Cache.Memory.Evict.{Evicted, evict-Evicted}

pub record IsValid {ℓ} {V : Type ℓ} (c : MemoryCache V) : Type ℓ where
  pub sound : IsSound c
  pub fits : c.used ≤ pos_part c.max_bytes

module _ {ℓ} {V : Type ℓ} where
  pub new-IsValid : (max_bytes ttl : ℤ) → IsValid (new {V = V} max_bytes ttl)
  unfolding new total
  new-IsValid max_bytes ttl = record {
    sound = record { linked = refl; distinct = tt; counted = refl };
    fits = omega arith;
  }

  used-delete : (key : Bytes) (c : MemoryCache V) → (delete_locked key c).used ≤ c.used
  unfolding delete_locked
  used-delete key c = ground arith

  pub put-evict :
      (key : Bytes) (v : V) (size now : ℕ) (c : MemoryCache V)
      → put key v size now c
        ≡ evict
            (suc (length (delete_locked key c).order))
            key
            (insert key v size now (delete_locked key c))
  unfolding put insert delete_locked
  put-evict key v size now c = ground arith

  pub put-Evicted :
      (key : Bytes) (v : V) (size now : ℕ) (c : MemoryCache V)
      → IsSound c
      → Evicted (insert key v size now (delete_locked key c)) (put key v size now c)
  unfolding insert
  put-Evicted key v size now c s = rw put-evict (
      evict-Evicted _ key (delete_locked key c).order _ refl (omega arith)
        (insert-IsSound key v size now _ (delete_self key c s).0 (delete-IsSound key c s)))

  pub max-insert :
      (key : Bytes) (v : V) (size now : ℕ) (c : MemoryCache V)
      → (insert key v size now (delete_locked key c)).max_bytes ≡ c.max_bytes
  unfolding insert
  max-insert key v size now c = (delete_keeps key c).0

  pub ttl-insert :
      (key : Bytes) (v : V) (size now : ℕ) (c : MemoryCache V)
      → (insert key v size now (delete_locked key c)).ttl ≡ c.ttl
  unfolding insert
  ttl-insert key v size now c = (delete_keeps key c).1

  pub put-IsValid :
      (key : Bytes) (v : V) (size now : ℕ) (c : MemoryCache V)
      → IsValid c
      → IsValid (put key v size now c)
  put-IsValid key v size now c h =
      let r = put-Evicted key v size now c h.sound in
      record { sound = r.sound; fits = rw r.same_max r.fits }

  pub get_miss :
      (key : Bytes) (now : ℕ) (c : MemoryCache V)
      → lookup key c.items ≡ none
      → get key now c ≡ (c, none)
  unfolding get
  get_miss key now c h = rw (h, get)

  pub get_stale :
      (key : Bytes) (now : ℕ) (c : MemoryCache V) (e : Entry V)
      → lookup key c.items ≡ some e
      → expired now c e ≡ true
      → get key now c ≡ (delete_locked key c, none)
  unfolding get
  get_stale key now c e h old = ground (arith, h, old)

  pub get_hit :
      (key : Bytes) (now : ℕ) (c : MemoryCache V) (e : Entry V)
      → lookup key c.items ≡ some e
      → expired now c e ≡ false
      → get key now c ≡ (record c { order = key ∷ erase key c.order }, some e.value)
  unfolding get
  get_hit key now c e h live = ground (arith, h, live)

  delete-IsValid : (key : Bytes) (c : MemoryCache V) → IsValid c → IsValid (delete_locked key c)
  delete-IsValid key c h = record {
    sound = delete-IsSound key c h.sound;
    fits = rw (delete_keeps key c).0 (omega (arith, used-delete key c, h.fits));
  }

  pub get-IsValid :
      (key : Bytes) (now : ℕ) (c : MemoryCache V) → IsValid c → IsValid (get key now c).0
  get-IsValid key now c h = elim (Option-cases (lookup key c.items)) [
    | inl e ↦ rw (get_miss key now c e) h
    | inr (e, hit) ↦ elim (Bool-cases (expired now c e)) [
      | inl old ↦ rw (get_stale key now c e hit old) (delete-IsValid key c h)
      | inr live ↦ rw (get_hit key now c e hit live) (record {
        sound = record {
          linked = touch-IsLinked key e c.order c.items hit h.sound.linked;
          distinct = (
            erase_self-IsFresh key c.order h.sound.distinct,
            erase-IsDistinct key c.order h.sound.distinct,
          );
          counted = h.sound.counted;
        };
        fits = h.fits;
      })
    ]
  ]

  remove-age :
      (at : ℕ) (k : Bytes) (t : List (Bytes × Entry V)) → remove k (age at t) ≡ age at (remove k t)
  unfolding remove
  remove-age at k [] = refl
  remove-age at k ((j, e) ∷ t) = ground (arith, remove-age at k t)

  lookup-age :
      (at : ℕ) (k : Bytes) (t : List (Bytes × Entry V)) (e : Entry V)
      → lookup k t ≡ some e
      → lookup k (age at t) ≡ some (record e { stored_at = at })
  unfolding lookup
  lookup-age at k [] e h = cc
  lookup-age at k ((j, d) ∷ t) e h = ground (arith, lookup-age at k t e)

  sizes-age : (at : ℕ) (t : List (Bytes × Entry V)) → sizes (age at t) ≡ sizes t
  unfolding total
  sizes-age at [] = refl
  sizes-age at ((j, e) ∷ t) = omega (arith, sizes-age at t)

  age-IsLinked :
      (at : ℕ) (ks : List Bytes) (t : List (Bytes × Entry V))
      → IsLinked ks t
      → IsLinked ks (age at t)
  age-IsLinked at [] t h = rw h
  age-IsLinked at (k ∷ ks) t h = (
    record h.0 { stored_at = at },
    lookup-age at k t h.0 h.1,
    rw (remove-age at k t) (age-IsLinked at ks (remove k t) h.2),
  )

  pub expire_all-IsValid :
      (now : ℕ) (c : MemoryCache V) → IsValid c → IsValid (expire_all_for_testing now c)
  unfolding expire_all_for_testing
  expire_all-IsValid now c h = record {
    sound = record {
      linked = age-IsLinked _ c.order c.items h.sound.linked;
      distinct = h.sound.distinct;
      counted = h.sound.counted ∙ sym (sizes-age _ c.items);
    };
    fits = h.fits;
  }

-- A call of one of the methods, with the time at which it runs.
pub data Op {ℓ} (V : Type ℓ) : Type ℓ where
  getting : Bytes → ℕ → Op V
  putting : Bytes → V → ℕ → ℕ → Op V
  expiring : ℕ → Op V

module _ {ℓ} {V : Type ℓ} where
  unfoldable pub step : MemoryCache V → Op V → MemoryCache V
  step c (getting key now) = (get key now c).0
  step c (putting key v size now) = put key v size now c
  step c (expiring now) = expire_all_for_testing now c

  unfoldable pub run : MemoryCache V → List (Op V) → MemoryCache V
  run c [] = c
  run c (op ∷ ops) = run (step c op) ops

  pub step-IsValid : (c : MemoryCache V) (op : Op V) → IsValid c → IsValid (step c op)
  unfolding step
  step-IsValid c (getting key now) h = get-IsValid key now c h
  step-IsValid c (putting key v size now) h = put-IsValid key v size now c h
  step-IsValid c (expiring now) h = expire_all-IsValid now c h

  -- Any sequence of cache calls keeps a valid cache valid: the map and the recency list hold the
  -- same keys, each once, the counter is the sum of the sizes held, and it is within the budget;
  -- Len counts the list.
  pub run-IsValid :
      (c : MemoryCache V) (ops : List (Op V))
      → IsValid c
      → IsValid (run c ops) × (len (run c ops) ≡ length (run c ops).order)
  unfolding run len
  run-IsValid c [] h = (h, length-IsLinked c.order c.items h.sound.linked)
  run-IsValid c (op ∷ ops) h = run-IsValid (step c op) ops (step-IsValid c op h)
