-- ===== src/Cache/Memory/Frame.antt =====
-- What a call leaves of the entries under other keys.
use mcp_webtools.Prelude.{
  ℕ, ◌≡◌, refl, sym, ◌∙◌, ◌≢◌, ◌⊎◌, inl, inr, none, arith, Bool-cases, Option-cases, Bytes,
}
use mcp_webtools.Cache.Table.{lookup}
use mcp_webtools.Cache.Memory.{MemoryCache, expired, get, put}
use mcp_webtools.Cache.Memory.Sound.{delete_keeps, lookup-delete_ne}
use mcp_webtools.Cache.Memory.Invariant.{
  IsValid, put-Evicted, put-IsValid, get-IsValid, get_miss, get_stale, get_hit, max-insert,
  ttl-insert,
}
use mcp_webtools.Cache.Memory.Reads.{put-LeastRecentGone}

-- `c'` is `c` after calls for the key `k`.
pub record Touched {ℓ} {V : Type ℓ} (k : Bytes) (c c' : MemoryCache V) : Type ℓ where
  pub valid : IsValid c'
  pub same_max : c'.max_bytes ≡ c.max_bytes
  pub same_ttl : c'.ttl ≡ c.ttl
  pub others :
      (q : Bytes) → q ≢ k → (lookup q c'.items ≡ none) ⊎ (lookup q c'.items ≡ lookup q c.items)

module _ {ℓ} {V : Type ℓ} (k : Bytes) where
  pub Touched-refl : {c : MemoryCache V} → IsValid c → Touched k c c
  Touched-refl h = record { valid = h; same_max = refl; same_ttl = refl; others = λ q e. inr refl }

  pub Touched-trans : {a b c : MemoryCache V} → Touched k a b → Touched k b c → Touched k a c
  Touched-trans p q = record {
    valid = q.valid;
    same_max = q.same_max ∙ p.same_max;
    same_ttl = q.same_ttl ∙ p.same_ttl;
    others = λ j e. ground (arith, p.others j e, q.others j e);
  }

  pub Touched-put :
      (v : V) (size now : ℕ) {c : MemoryCache V} → IsValid c → Touched k c (put k v size now c)
  Touched-put v size now {c} h =
      let r = put-Evicted k v size now c h.sound in
      record {
        valid = put-IsValid k v size now c h;
        same_max = r.same_max ∙ max-insert k v size now c;
        same_ttl = r.same_ttl ∙ ttl-insert k v size now c;
        others = (put-LeastRecentGone k v size now c h).reads;
      }

  pub Touched-get : (now : ℕ) {c : MemoryCache V} → IsValid c → Touched k c (get k now c).0
  Touched-get now {c} h = elim (Option-cases (lookup k c.items)) [
    | inl e ↦ rw (get_miss k now c e) (Touched-refl h)
    | inr (e, hit) ↦ elim (Bool-cases (expired now c e)) [
      | inl old ↦ rw (get_stale k now c e hit old) (record {
        valid = rw (get_stale k now c e hit old) at (get-IsValid k now c h);
        same_max = (delete_keeps k c).0;
        same_ttl = (delete_keeps k c).1;
        others = λ q other. inr (lookup-delete_ne k q c (λ p. other (sym p)));
      })
      | inr live ↦ rw (get_hit k now c e hit live) (record {
        valid = rw (get_hit k now c e hit live) at (get-IsValid k now c h);
        same_max = refl;
        same_ttl = refl;
        others = λ q other. inr refl;
      })
    ]
  ]
