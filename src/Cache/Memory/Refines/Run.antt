-- ===== src/Cache/Memory/Refines/Run.antt =====
-- Any sequence of calls on the cache and on its abstract view.
use mcp_webtools.Prelude.{
  ℕ, ◌≡◌, refl, sym, ap, ◌∙◌, inl, inr, Option, none, List, [], ◌∷◌, arith, Bool-cases,
  Option-cases, ℤ, pos, Bytes, same,
}
use mcp_webtools.Cache.Table.{lookup}
use mcp_webtools.Cache.Memory.{
  MemoryCache, Entry, new, delete_locked, expired, get, insert, put, expire_all_for_testing,
}
use mcp_webtools.Cache.Memory.Sound.{
  IsSound, delete_self, delete_keeps, delete-IsSound, insert-IsSound,
}
use mcp_webtools.Cache.Memory.Invariant.{
  IsValid, put-Evicted, get_miss, get_stale, get_hit, max-insert, Op, getting, putting, expiring,
  step, step-IsValid, new-IsValid, ttl-insert,
}
use mcp_webtools.Cache.Memory.Lru.{
  lru_get, lru_put, lru_step, lru_answers, keys-age, lookup-age, aged, lru_miss, lru_stale, lru_hit,
}
use mcp_webtools.Cache.Memory.Refines.{
  Shows, delete-Shows, touch-Shows, insert-Shows, evicted-Shows,
}

module _ {ℓ} {V : Type ℓ} where
  -- What a call returns; only `Get` returns a value.
  unfoldable pub answer : MemoryCache V → Op V → Option V
  answer c (getting key now) = (get key now c).1
  answer c (putting key v size now) = none
  answer c (expiring now) = none

  unfoldable pub answers : MemoryCache V → List (Op V) → List (Option V)
  answers c [] = []
  answers c (op ∷ ops) = answer c op ∷ answers (step c op) ops

  get-Shows :
      (key : Bytes) (now : ℕ) (c : MemoryCache V) (t : List (Bytes × Entry V))
      → IsSound c
      → Shows c t
      → Shows (get key now c).0 (lru_get c.ttl key now t).0
        × ((get key now c).1 ≡ (lru_get c.ttl key now t).1)
  unfolding expired
  get-Shows key now c t s shows = elim (Option-cases (lookup key c.items)) [
    | inl e ↦
        rw (get_miss key now c e, lru_miss c.ttl key now t (sym (shows.reads key) ∙ e))
          (shows, refl)
    | inr (e, hit) ↦ elim (Bool-cases (expired now c e)) [
      | inl old ↦
          rw
            (
              get_stale key now c e hit old,
              lru_stale c.ttl key now t e (sym (shows.reads key) ∙ hit) old,
            )
            (delete-Shows key c t s shows, refl)
      | inr live ↦
          rw
            (
              get_hit key now c e hit live,
              lru_hit c.ttl key now t e (sym (shows.reads key) ∙ hit) live,
            )
            (touch-Shows key c t s shows e hit, refl)
    ]
  ]

  put-Shows :
      (key : Bytes) (v : V) (size now m : ℕ) (c : MemoryCache V) (t : List (Bytes × Entry V))
      → IsSound c
      → Shows c t
      → c.max_bytes ≡ pos m
      → Shows (put key v size now c) (lru_put m key v size now t)
  unfolding lru_put
  put-Shows key v size now m c t s shows budget =
      evicted-Shows (insert key v size now (delete_locked key c)) (put key v size now c) _ m
        (insert-IsSound key v size now _ (delete_self key c s).0 (delete-IsSound key c s))
        (insert-Shows key v size now (delete_locked key c) _ (delete-Shows key c t s shows))
        (put-Evicted key v size now c s) (max-insert key v size now c ∙ budget)

  step-keeps :
      (c : MemoryCache V) (op : Op V)
      → IsSound c
      → ((step c op).max_bytes ≡ c.max_bytes) × ((step c op).ttl ≡ c.ttl)
  unfolding step get expire_all_for_testing
  step-keeps c (getting key now) s = ground (arith, delete_keeps key c)
  step-keeps c (putting key v size now) s =
      let left = put-Evicted key v size now c s in
      (left.same_max ∙ max-insert key v size now c, left.same_ttl ∙ ttl-insert key v size now c)
  step-keeps c (expiring now) s = (refl, refl)

  step-Shows :
      (c : MemoryCache V) (op : Op V) (m : ℕ) (t : List (Bytes × Entry V))
      → IsSound c
      → Shows c t
      → c.max_bytes ≡ pos m
      → Shows (step c op) (lru_step m c.ttl op t).0 × (answer c op ≡ (lru_step m c.ttl op t).1)
  unfolding step answer lru_step expire_all_for_testing
  step-Shows c (getting key now) m t s shows budget = get-Shows key now c t s shows
  step-Shows c (putting key v size now) m t s shows budget =
      (put-Shows key v size now m c t s shows budget, refl)
  step-Shows c (expiring now) m t s shows budget = (
    record {
      same_keys = shows.same_keys ∙ sym (keys-age _ t);
      reads = λ q. lookup-age _ q c.items ∙ ap (aged _) (shows.reads q) ∙ sym (lookup-age _ q t);
    },
    refl,
  )

  pub answers-lru :
      (ops : List (Op V)) (c : MemoryCache V) (m : ℕ) (t : List (Bytes × Entry V))
      → IsValid c
      → Shows c t
      → c.max_bytes ≡ pos m
      → answers c ops ≡ lru_answers m c.ttl ops t
  unfolding answers lru_answers
  answers-lru [] c m t h shows budget = refl
  answers-lru (op ∷ ops) c m t h shows budget =
      let (next, same) = step-Shows c op m t h.sound shows budget in
      let (same_max, same_ttl) = step-keeps c op h.sound in
      ap (λ (a : Option V). a ∷ answers (step c op) ops) same
      ∙ ap (◌∷◌ (lru_step m c.ttl op t).1) (
          answers-lru ops (step c op) m (lru_step m c.ttl op t).0 (step-IsValid c op h) next
            (same_max ∙ budget)
          ∙ ap (λ l. lru_answers m l ops (lru_step m c.ttl op t).0) same_ttl)

  -- For a budget that is not negative, any sequence of calls on a new cache returns what the same
  -- calls return on the abstract view, one list of entries in the order of use, of which a Put
  -- keeps the longest front that fits the budget and from which a Get takes the entry to the
  -- front, or out where it is stale.
  pub new-answers :
      (ops : List (Op V)) (m : ℕ) (ttl : ℤ)
      → answers (new (pos m) ttl) ops ≡ lru_answers m ttl ops []
  unfolding new lookup
  new-answers ops m ttl =
      answers-lru ops (new (pos m) ttl) m [] (new-IsValid (pos m) ttl)
        (record { same_keys = refl; reads = λ q. refl }) refl
