-- ===== src/Cache/Memory/Contents.antt =====
-- What a cache holds: a property of the entries under their keys, which the calls keep.
use mcp_webtools.Prelude.{
  ℕ, ◌≡◌, refl, sym, ap, ◌∙◌, subst, ◌⊎◌, inl, inr, Option, none, some, ◌∷◌, arith, Bool-cases,
  Option-cases, ℤ, Bytes, bytes_discrete,
}
use mcp_webtools.Cache.Table.{lookup, lookup-cons_self}
use mcp_webtools.Cache.Memory.{MemoryCache, Entry, delete_locked, expired, insert, new, get, put}
use mcp_webtools.Cache.Memory.Invariant.{IsValid, put-Evicted, get_miss, get_stale, get_hit}
use mcp_webtools.Cache.Memory.Frame.{Touched-put, Touched-get}
use mcp_webtools.Cache.Memory.Sound.{delete_self}

-- Every entry has the property at its key.
abbrev pub AllHeld {ℓ κ} : {V : Type ℓ} → (Bytes → V → Type κ) → MemoryCache V → Type (ℓ ⊔ κ)
AllHeld {V} P c = (k : Bytes) (e : Entry V) → lookup k c.items ≡ some e → P k e.value

module _ {ℓ} {V : Type ℓ} where
  reads_after_get :
      (key q : Bytes) (now : ℕ) (c : MemoryCache V)
      → IsValid c
      → (lookup q (get key now c).0.items ≡ none)
        ⊎ (lookup q (get key now c).0.items ≡ lookup q c.items)
  reads_after_get key q now c h = elim (bytes_discrete q key) [
    | no other ↦ (Touched-get key now h).others q other
    | yes same_key ↦ elim (Option-cases (lookup key c.items)) [
      | inl e ↦ rw (get_miss key now c e) (inr refl)
      | inr (e, hit) ↦ elim (Bool-cases (expired now c e)) [
        | inl old ↦
            rw (get_stale key now c e hit old) (inl (rw same_key (delete_self key c h.sound).1))
        | inr live ↦ rw (get_hit key now c e hit live) (inr refl)
      ]
    ]
  ]

  -- A value that a Get returns is held under its key.
  pub held_of_get :
      (key : Bytes) (now : ℕ) (c : MemoryCache V) (v : V)
      → (get key now c).1 ≡ some v
      → (e : Entry V) × (lookup key c.items ≡ some e) × (e.value ≡ v)
  held_of_get key now c v h = elim (Option-cases (lookup key c.items)) [
    | inl e ↦
        absurd
          (ground (arith, h, ap (λ (r : MemoryCache V × Option V). r.1) (get_miss key now c e)))
    | inr (e, hit) ↦ elim (Bool-cases (expired now c e)) [
      | inl old ↦ absurd (
          ground
            (arith, h, ap (λ (r : MemoryCache V × Option V). r.1) (get_stale key now c e hit old)))
      | inr live ↦ (
        e,
        hit,
        ground
            (arith, h, ap (λ (r : MemoryCache V × Option V). r.1) (get_hit key now c e hit live)),
      )
    ]
  ]

  value_of_put :
      (key : Bytes) (v : V) (size done : ℕ) (c : MemoryCache V) (k : Bytes) (e : Entry V)
      → k ≡ key
      → lookup k (insert key v size done (delete_locked key c)).items ≡ some e
      → v ≡ e.value
  unfolding insert
  value_of_put key v size done c k e same_key here =
      let entry : Entry V = record { value = v; size = size; stored_at = done } in
      ground (
        arith,
        here,
        lookup-cons_self key entry (delete_locked key c).items,
        ap (λ j. lookup j ((key, entry) ∷ (delete_locked key c).items)) same_key,
      )

  module _ {κ} (P : Bytes → V → Type κ) where
    pub AllHeld-new : (max_bytes ttl : ℤ) → AllHeld P (new max_bytes ttl)
    unfolding new lookup
    AllHeld-new max_bytes ttl k e hit = absurd (cc (hit))

    pub AllHeld-get :
        (key : Bytes) (now : ℕ) (c : MemoryCache V)
        → IsValid c
        → AllHeld P c
        → AllHeld P (get key now c).0
    AllHeld-get key now c h all k e hit = elim (reads_after_get key k now c h) [
      | inl gone ↦ absurd (cc (gone, hit))
      | inr here ↦ all k e (sym here ∙ hit)
    ]

    -- A Put of a value that has the property at its key.
    pub AllHeld-put :
        (key : Bytes) (v : V) (size done : ℕ) (c : MemoryCache V)
        → IsValid c
        → P key v
        → AllHeld P c
        → AllHeld P (put key v size done c)
    AllHeld-put key v size done c h p all k e hit = elim (bytes_discrete k key) [
      | no other ↦ elim ((Touched-put key v size done h).others k other) [
        | inl gone ↦ absurd (cc (gone, hit))
        | inr here ↦ all k e (sym here ∙ hit)
      ]
      | yes same_key ↦ elim ((put-Evicted key v size done c h.sound).reads k) [
        | inl gone ↦ absurd (cc (gone, hit))
        | inr here ↦
            let e_value : v ≡ e.value =
              value_of_put key v size done c k e same_key (sym here ∙ hit) in
            subst (λ x. P k x) e_value (subst (λ j. P j v) (sym same_key) p)
      ]
    ]
