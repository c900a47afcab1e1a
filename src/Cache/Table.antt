-- ===== src/Cache/Table.antt =====
-- Go's `map[string]V`, as an association list that holds each key once. The program never ranges
-- over a map in an order that shows.
use mcp_webtools.Prelude.{
  ℕ, ◌+◌, ◌≡◌, refl, ◌≢◌, List, [], ◌∷◌, Option, none, some, arith, Bytes, bytes_discrete, length,
}

module _ {ℓ} {V : Type ℓ} where
  unfoldable pub lookup : Bytes → List (Bytes × V) → Option V
  lookup k [] = none
  lookup k ((j, v) ∷ t) = elim (bytes_discrete j k) [ yes _ ↦ some v | no _ ↦ lookup k t ]

  unfoldable pub remove : Bytes → List (Bytes × V) → List (Bytes × V)
  remove k [] = []
  remove k ((j, v) ∷ t) = elim (bytes_discrete j k) [ yes _ ↦ t | no _ ↦ (j, v) ∷ remove k t ]

  pub lookup-cons_self : (k : Bytes) (v : V) (t : List (Bytes × V)) → lookup k ((k, v) ∷ t) ≡ some v
  unfolding lookup
  lookup-cons_self k v t = ground arith

  pub remove-cons_self : (k : Bytes) (v : V) (t : List (Bytes × V)) → remove k ((k, v) ∷ t) ≡ t
  unfolding remove
  remove-cons_self k v t = ground arith

  pub lookup-cons_ne :
      (k j : Bytes) (v : V) (t : List (Bytes × V)) → k ≢ j → lookup j ((k, v) ∷ t) ≡ lookup j t
  unfolding lookup
  lookup-cons_ne k j v t h = ground arith

  pub lookup-remove_ne :
      (k j : Bytes) (t : List (Bytes × V)) → k ≢ j → lookup j (remove k t) ≡ lookup j t
  unfolding lookup remove
  lookup-remove_ne k j [] h = refl
  lookup-remove_ne k j ((i, v) ∷ t) h = ground (arith, lookup-remove_ne k j t)

  pub remove_comm :
      (k j : Bytes) (t : List (Bytes × V)) → remove k (remove j t) ≡ remove j (remove k t)
  unfolding remove
  remove_comm k j [] = refl
  remove_comm k j ((i, v) ∷ t) = ground (arith, remove_comm k j t)

  pub remove_absent : (k : Bytes) (t : List (Bytes × V)) → lookup k t ≡ none → remove k t ≡ t
  unfolding lookup remove
  remove_absent k [] h = refl
  remove_absent k ((i, v) ∷ t) h = ground (arith, remove_absent k t)

  -- The sum of a measure over the values, Go's `len` among them.
  unfoldable pub total : (V → ℕ) → List (Bytes × V) → ℕ
  total m [] = 0
  total m ((k, v) ∷ t) = m v + total m t

  pub total-remove :
      (m : V → ℕ) (k : Bytes) (v : V) (t : List (Bytes × V))
      → lookup k t ≡ some v
      → total m (remove k t) + m v ≡ total m t
  unfolding lookup remove total
  total-remove m k v [] h = cc
  total-remove m k v ((i, w) ∷ t) h = ground (arith, total-remove m k v t)

  pub length-remove :
      (k : Bytes) (v : V) (t : List (Bytes × V))
      → lookup k t ≡ some v
      → length (remove k t) + 1 ≡ length t
  unfolding lookup remove
  length-remove k v [] h = cc
  length-remove k v ((i, w) ∷ t) h = ground (arith, length-remove k v t)
