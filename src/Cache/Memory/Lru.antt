-- ===== src/Cache/Memory/Lru.antt =====
-- An abstract view of the cache of internal/cache/cache.go: one list of entries, the most recently used
-- first, of which a `Put` keeps the longest front that fits the budget.
use mcp_webtools.Prelude.{
  ℕ, ◌+◌, ◌-◌, ◌≤◌, ◌<◌, ◌≡◌, refl, ap, Bool, true, false, ◌&&◌, Option, none, some, List, [], ◌∷◌,
  ◌++◌, arith, leb, if◌then◌else◌, ℤ, pos, sub_ℕ, neg, ltb_ℤ, shift, Bytes,
}
use mcp_webtools.Cache.Table.{lookup, remove, total, lookup-cons_self}
use mcp_webtools.Cache.Memory.{Entry, age, second}
use mcp_webtools.Cache.Memory.Order.{erase, IsFresh, IsDistinct}
use mcp_webtools.Cache.Memory.Sound.{sizes}
use mcp_webtools.Cache.Memory.Invariant.{Op, getting, putting, expiring}

abbrev pub is_old : ℤ → ℕ → ℕ → Bool
is_old ttl now stored_at = ltb_ℤ (pos 0) ttl && ltb_ℤ ttl (sub_ℕ now stored_at)

module _ {ℓ} {V : Type ℓ} where
  abbrev pub keys : List (Bytes × Entry V) → List Bytes
  keys [] = []
  keys ((k, e) ∷ t) = k ∷ keys t

  -- The longest front whose sizes the budget covers.
  unfoldable pub fit : ℕ → List (Bytes × Entry V) → List (Bytes × Entry V)
  fit budget [] = []
  fit budget ((k, e) ∷ t) =
      let rest = fit (budget - e.size) t in if leb e.size budget then (k, e) ∷ rest else []

  unfoldable pub lru_get :
      ℤ → Bytes → ℕ → List (Bytes × Entry V) → List (Bytes × Entry V) × Option V
  lru_get ttl key now t = elim (lookup key t) [
    | none ↦ (t, none)
    | some e ↦
        if is_old ttl now e.stored_at
        then (remove key t, none)
        else ((key, e) ∷ remove key t, some e.value)
  ]

  unfoldable pub lru_put : ℕ → Bytes → V → ℕ → ℕ → List (Bytes × Entry V) → List (Bytes × Entry V)
  lru_put budget key value size now t =
      fit budget ((key, record { value = value; size = size; stored_at = now }) ∷ remove key t)

  unfoldable pub lru_step :
      ℕ → ℤ → Op V → List (Bytes × Entry V) → List (Bytes × Entry V) × Option V
  lru_step budget ttl (getting key now) t = lru_get ttl key now t
  lru_step budget ttl (putting key v size now) t = (lru_put budget key v size now t, none)
  lru_step budget ttl (expiring now) t = (age (shift (shift now (neg ttl)) (neg second)) t, none)

  -- What the calls return, one after another.
  unfoldable pub lru_answers : ℕ → ℤ → List (Op V) → List (Bytes × Entry V) → List (Option V)
  lru_answers budget ttl [] t = []
  lru_answers budget ttl (op ∷ ops) t =
      let (next, answer) = lru_step budget ttl op t in answer ∷ lru_answers budget ttl ops next

  pub lru_miss :
      (ttl : ℤ) (key : Bytes) (now : ℕ) (t : List (Bytes × Entry V))
      → lookup key t ≡ none
      → lru_get ttl key now t ≡ (t, none)
  unfolding lru_get
  lru_miss ttl key now t h = ground (arith, h)

  pub lru_stale :
      (ttl : ℤ) (key : Bytes) (now : ℕ) (t : List (Bytes × Entry V)) (e : Entry V)
      → lookup key t ≡ some e
      → is_old ttl now e.stored_at ≡ true
      → lru_get ttl key now t ≡ (remove key t, none)
  unfolding lru_get
  lru_stale ttl key now t e h old = ground (arith, h, old)

  pub lru_hit :
      (ttl : ℤ) (key : Bytes) (now : ℕ) (t : List (Bytes × Entry V)) (e : Entry V)
      → lookup key t ≡ some e
      → is_old ttl now e.stored_at ≡ false
      → lru_get ttl key now t ≡ ((key, e) ∷ remove key t, some e.value)
  unfolding lru_get
  lru_hit ttl key now t e h live = ground (arith, h, live)

  pub keys-remove : (k : Bytes) (t : List (Bytes × Entry V)) → keys (remove k t) ≡ erase k (keys t)
  unfolding remove erase
  keys-remove k [] = refl
  keys-remove k ((j, e) ∷ t) = ground (arith, keys-remove k t)

  pub keys-age : (at : ℕ) (t : List (Bytes × Entry V)) → keys (age at t) ≡ keys t
  keys-age at [] = refl
  keys-age at ((j, e) ∷ t) = ap (◌∷◌ j) (keys-age at t)

  pub lookup_fresh :
      (q : Bytes) (t : List (Bytes × Entry V)) → IsFresh q (keys t) → lookup q t ≡ none
  unfolding lookup
  lookup_fresh q [] h = refl
  lookup_fresh q ((j, e) ∷ t) h = ground (arith, lookup_fresh q t h.1)

  pub IsFresh-of_none :
      (q : Bytes) (t : List (Bytes × Entry V)) → lookup q t ≡ none → IsFresh q (keys t)
  unfolding lookup
  IsFresh-of_none q [] h = tt
  IsFresh-of_none q ((j, e) ∷ t) h = ground (arith, IsFresh-of_none q t)

  pub lookup-append :
      (q : Bytes) (xs ys : List (Bytes × Entry V)) (e : Entry V)
      → lookup q xs ≡ some e
      → lookup q (xs ++ ys) ≡ some e
  unfolding lookup
  lookup-append q [] ys e h = cc
  lookup-append q ((j, d) ∷ xs) ys e h = ground (arith, lookup-append q xs ys e)

  pub lookup_at :
      (k : Bytes) (d : Entry V) (xs ys : List (Bytes × Entry V))
      → IsDistinct (keys (xs ++ (k, d) ∷ ys))
      → lookup k (xs ++ (k, d) ∷ ys) ≡ some d
  unfolding lookup
  lookup_at k d [] ys distinct = lookup-cons_self k d ys
  lookup_at k d ((i, e) ∷ xs) ys distinct =
      let found = lookup_at k d xs ys distinct.1 in
      ground (arith, found, lookup_fresh i (xs ++ (k, d) ∷ ys) distinct.0)

  abbrev pub aged : ℕ → Option (Entry V) → Option (Entry V)
  aged at none = none
  aged at (some e) = some (record e { stored_at = at })

  pub lookup-age :
      (at : ℕ) (q : Bytes) (t : List (Bytes × Entry V)) → lookup q (age at t) ≡ aged at (lookup q t)
  unfolding lookup
  lookup-age at q [] = refl
  lookup-age at q ((j, e) ∷ t) = ground (arith, lookup-age at q t)

  -- The first of the entries does not fit beside what is used.
  abbrev pub Stops : ℕ → ℕ → List (Bytes × Entry V) → Type 0
  Stops budget used [] = Unit {0}
  Stops budget used ((k, e) ∷ rest) = budget < used + e.size

  Stops-later :
      (budget size used : ℕ) (ys : List (Bytes × Entry V))
      → size ≤ budget
      → Stops budget (size + used) ys
      → Stops (budget - size) used ys
  Stops-later budget size used [] h stops = tt
  Stops-later budget size used ((k, e) ∷ ys) h stops = omega arith

  -- A front that fits, before an entry that does not fit with it, is what `fit` leaves.
  pub fit-append :
      (budget : ℕ) (xs ys : List (Bytes × Entry V))
      → sizes xs ≤ budget
      → Stops budget (sizes xs) ys
      → fit budget (xs ++ ys) ≡ xs
  unfolding fit total
  fit-append budget [] [] fits stops = refl
  fit-append budget [] ((k, e) ∷ ys) fits stops = ground arith
  fit-append budget ((k, e) ∷ xs) ys fits stops =
      let rest =
        fit-append (budget - e.size) xs ys (omega arith)
          (Stops-later budget e.size (sizes xs) ys (omega arith) stops) in
      ground (arith, rest)

  -- The front of a table whose keys split.
  pub split_keys :
      (t : List (Bytes × Entry V)) (ks gone : List Bytes)
      → keys t ≡ ks ++ gone
      → (xs : List (Bytes × Entry V)) × (ys : List (Bytes × Entry V)) × (t ≡ xs ++ ys)
        × (keys xs ≡ ks)
        × (keys ys ≡ gone)
  split_keys t [] gone h = ([], t, refl, refl, h)
  split_keys [] (k ∷ ks) gone h = cc
  split_keys ((j, e) ∷ t) (k ∷ ks) gone h =
      let (xs, ys, split, front, back) = split_keys t ks gone (ground arith) in
      ((j, e) ∷ xs, ys, ap (◌∷◌ (j, e)) split, ground (arith, front), back)
