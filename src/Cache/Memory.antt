-- ===== src/Cache/Memory.antt =====
-- `memoryCache` of internal/cache/cache.go. The mutex makes each method one step, so a method takes
-- the cache and returns it anew; `time.Now()` is the argument `now`, in nanoseconds since Go's zero
-- time. The list element that an entry points to is its key in `order`: each key stands there once.
-- Sizes are lengths, hence natural numbers; the sums stay below 2^63.
pub mod Order
pub mod Link
pub mod Sound
pub mod Evict
pub mod Invariant
pub mod Reads
pub mod Frame
pub mod Contents
pub mod Charged
pub mod Lru
pub mod Refines
use mathlib.Core.List.{get_last?}
use mcp_webtools.Prelude.{
  ℕ, zero, suc, ◌+◌, ◌-◌, Bool, true, false, ◌&&◌, Option, none, some, List, [], ◌∷◌, map,
  if◌then◌else◌, length, ℤ, pos, sub_ℕ, neg, ltb_ℤ, shift, Bytes, bytes_discrete,
}
use mcp_webtools.Cache.Table.{lookup, remove}
use Order.{erase}

pub record Entry {ℓ} (V : Type ℓ) : Type ℓ where
  pub value : V
  pub size : ℕ
  pub stored_at : ℕ

pub record MemoryCache {ℓ} (V : Type ℓ) : Type ℓ where
  pub max_bytes : ℤ
  pub ttl : ℤ
  pub used : ℕ
  pub order : List Bytes
  pub items : List (Bytes × Entry V)

abbrev pub second : ℤ
second = pos 1_000_000_000

-- 5 * time.Minute
abbrev pub default_ttl : ℤ
default_ttl = pos 300_000_000_000

module _ {ℓ} {V : Type ℓ} where
  unfoldable pub new : ℤ → ℤ → MemoryCache V
  new max_bytes ttl = record { max_bytes = max_bytes; ttl = ttl; used = 0; order = []; items = [] }

  unfoldable pub delete_locked : Bytes → MemoryCache V → MemoryCache V
  delete_locked key c = elim (lookup key c.items) [
    | none ↦ c
    | some e ↦ record c {
      items = remove key c.items;
      order = erase key c.order;
      used = c.used - e.size;
    }
  ]

  -- `c.ttl > 0 && time.Since(e.storedAt) > c.ttl`
  unfoldable pub expired : ℕ → MemoryCache V → Entry V → Bool
  expired now c e = ltb_ℤ (pos 0) c.ttl && ltb_ℤ c.ttl (sub_ℕ now e.stored_at)

  unfoldable pub get : Bytes → ℕ → MemoryCache V → MemoryCache V × Option V
  get key now c = elim (lookup key c.items) [
    | none ↦ (c, none)
    | some e ↦
        if expired now c e
        then (delete_locked key c, none)
        else (record c { order = key ∷ erase key c.order }, some e.value)
  ]

  unfoldable pub over_budget : MemoryCache V → Bool
  over_budget c = ltb_ℤ c.max_bytes (pos c.used)

  -- The loop of `Put`; each round but the last deletes an entry, so its fuel is the number of keys.
  unfoldable pub evict : ℕ → Bytes → MemoryCache V → MemoryCache V
  evict zero key c = c
  evict (suc fuel) key c = elim (over_budget c) [
    | false ↦ c
    | true ↦ elim (get_last? c.order) [
      | none ↦ c
      | some k ↦ elim (bytes_discrete k key) [
        | yes _ ↦ delete_locked key c
        | no _ ↦ evict fuel key (delete_locked k c)
      ]
    ]
  ]

  -- The map and the list with the new entry in front.
  unfoldable pub insert : Bytes → V → ℕ → ℕ → MemoryCache V → MemoryCache V
  insert key value size now c = record c {
    order = key ∷ c.order;
    items = (key, record { value = value; size = size; stored_at = now }) ∷ c.items;
    used = c.used + size;
  }

  unfoldable pub put : Bytes → V → ℕ → ℕ → MemoryCache V → MemoryCache V
  put key value size now c =
      let dropped : MemoryCache V = elim (lookup key c.items) [
        | none ↦ c
        | some _ ↦ delete_locked key c
      ] in
      let stored = insert key value size now dropped in evict (length stored.order) key stored

  unfoldable pub used_bytes : MemoryCache V → ℕ
  used_bytes c = c.used

  unfoldable pub len : MemoryCache V → ℕ
  len c = length c.items

  abbrev pub age : ℕ → List (Bytes × Entry V) → List (Bytes × Entry V)
  age at = map (λ e. (e.0, record e.1 { stored_at = at }))

  unfoldable pub expire_all_for_testing : ℕ → MemoryCache V → MemoryCache V
  expire_all_for_testing now c = record c {
    items = age (shift (shift now (neg c.ttl)) (neg second)) c.items;
  }
