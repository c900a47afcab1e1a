-- ===== src/Cache/Memory/Link.antt =====
-- The order list and the map hold the same keys.
use mcp_webtools.Prelude.{
  ◌≡◌, sym, ap, ◌∙◌, ◌≢◌, none, some, List, [], ◌∷◌, ◌++◌, arith, length, Bytes, bytes_discrete,
}
use mcp_webtools.Cache.Table.{
  lookup, remove, lookup-remove_ne, remove_comm, length-remove, lookup-cons_self, remove-cons_self,
}
use mcp_webtools.Cache.Memory.Order.{erase, erase_head, erase_tail, fresh_last, IsFresh, IsDistinct}

module _ {ℓ} {V : Type ℓ} where
  -- The keys of the list, front first, are the keys of the map, each once.
  abbrev pub IsLinked : List Bytes → List (Bytes × V) → Type ℓ
  IsLinked [] t = t ≡ []
  IsLinked (k ∷ ks) t = (v : V) × (lookup k t ≡ some v) × IsLinked ks (remove k t)

  pub erase-IsLinked :
      (k : Bytes) (ks : List Bytes) (t : List (Bytes × V))
      → IsLinked ks t
      → IsLinked (erase k ks) (remove k t)
  unfolding erase remove
  erase-IsLinked k [] t h = rw h
  erase-IsLinked k (j ∷ ks) t h = elim (bytes_discrete j k) [
    | yes p ↦ rw (p, erase_head) (rw p at h.2)
    | no p ↦ rw (erase_tail k j ks p) (
      h.0,
      lookup-remove_ne k j t (λ e. p (sym e)) ∙ h.1,
      rw (remove_comm j k t) (erase-IsLinked k ks (remove j t) h.2),
    )
  ]

  pub insert-IsLinked :
      (k : Bytes) (v : V) (ks : List Bytes) (t : List (Bytes × V))
      → IsLinked ks t
      → IsLinked (k ∷ ks) ((k, v) ∷ t)
  insert-IsLinked k v ks t h = (v, lookup-cons_self k v t, rw remove-cons_self h)

  -- A key moves to the front.
  pub touch-IsLinked :
      (k : Bytes) (v : V) (ks : List Bytes) (t : List (Bytes × V))
      → lookup k t ≡ some v
      → IsLinked ks t
      → IsLinked (k ∷ erase k ks) t
  touch-IsLinked k v ks t e h = (v, e, erase-IsLinked k ks t h)

  pub lookup-IsFresh :
      (k : Bytes) (ks : List Bytes) (t : List (Bytes × V))
      → IsLinked ks t
      → IsFresh k ks
      → lookup k t ≡ none
  unfolding lookup
  lookup-IsFresh k [] t h f = rw h
  lookup-IsFresh k (j ∷ ks) t h f =
      sym (lookup-remove_ne j k t f.0) ∙ lookup-IsFresh k ks (remove j t) h.2 f.1

  pub IsFresh-lookup :
      (k : Bytes) (ks : List Bytes) (t : List (Bytes × V))
      → IsLinked ks t
      → lookup k t ≡ none
      → IsFresh k ks
  IsFresh-lookup k [] t h e = tt
  IsFresh-lookup k (j ∷ ks) t h e =
      let apart : j ≢ k = λ p. cc (h.1, e, ap (λ (i : Bytes). lookup i t) p) in
      (apart, IsFresh-lookup k ks (remove j t) h.2 (lookup-remove_ne j k t apart ∙ e))

  pub lookup_last :
      (ks : List Bytes) (k : Bytes) (t : List (Bytes × V))
      → IsLinked (ks ++ k ∷ []) t
      → IsDistinct (ks ++ k ∷ [])
      → (v : V) × (lookup k t ≡ some v)
  lookup_last [] k t h d = (h.0, h.1)
  lookup_last (j ∷ ks) k t h d =
      let (v, e) = lookup_last ks k (remove j t) h.2 d.1 in
      (v, sym (lookup-remove_ne j k t (λ p. fresh_last j k ks d.0 (sym p))) ∙ e)

  pub length-IsLinked :
      (ks : List Bytes) (t : List (Bytes × V)) → IsLinked ks t → length t ≡ length ks
  length-IsLinked [] t h = ap length h
  length-IsLinked (k ∷ ks) t h =
      omega (arith, length-remove k h.0 t h.1, length-IsLinked ks (remove k t) h.2)
