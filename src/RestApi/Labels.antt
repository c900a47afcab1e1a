-- ===== src/RestApi/Labels.antt =====
-- The actors whose names a page of history comes with.
use mcp_webtools.Prelude.{
  ◌≡◌, sym, ap, subst, inl, inr, Bool, false, not, ◌&&◌, ◌||◌, List, [], ◌∷◌, arith, Bool-cases,
  Bytes, same, eq_of_same, same_refl, same_iff,
}
use mcp_webtools.Storage.History.{Call}
use mcp_webtools.Cache.Memory.Order.{IsFresh, IsDistinct}
use mcp_webtools.RestApi.Answers.{is_seen, actor_ids}

-- A call of this actor.
abbrev pub has_call : Bytes → List Call → Bool
has_call id [] = false
has_call id (c ∷ calls) = same c.actor_id id || has_call id calls

is_seen-actor_ids :
    (id : Bytes) (seen : List Bytes) (calls : List Call)
    → is_seen id (actor_ids seen calls) ≡ (not (is_seen id seen) && has_call id calls)
unfolding is_seen actor_ids
is_seen-actor_ids id seen [] = ground arith
is_seen-actor_ids id seen (c ∷ calls) = elim (Bool-cases (is_seen c.actor_id seen)) [
  | inl again ↦ elim (Bool-cases (same c.actor_id id)) [
    | inl here ↦ ground (
      arith,
      again,
      here,
      is_seen-actor_ids id seen calls,
      ap (λ k. is_seen k seen) (eq_of_same c.actor_id id here),
    )
    | inr other ↦ ground (arith, again, other, is_seen-actor_ids id seen calls)
  ]
  | inr new ↦ elim (Bool-cases (same c.actor_id id)) [
    | inl here ↦ ground (arith, new, here, ap (λ k. is_seen k seen) (eq_of_same c.actor_id id here))
    | inr other ↦ ground (arith, new, other, is_seen-actor_ids id (c.actor_id ∷ seen) calls)
  ]
]

IsFresh-of : (id : Bytes) (ids : List Bytes) → is_seen id ids ≡ false → IsFresh id ids
unfolding is_seen
IsFresh-of id [] h = tt
IsFresh-of id (k ∷ ids) h = elim (Bool-cases (same k id)) [
  | inl here ↦ absurd (ground (arith, here))
  | inr other ↦ (λ e. cc (other, (same_iff k id).1 e), IsFresh-of id ids (ground (arith, other)))
]

IsDistinct-from : (seen : List Bytes) (calls : List Call) → IsDistinct (actor_ids seen calls)
unfolding actor_ids is_seen
IsDistinct-from seen [] = tt
IsDistinct-from seen (c ∷ calls) = elim (Bool-cases (is_seen c.actor_id seen)) [
  | inl again ↦
      let same_ids : actor_ids seen (c ∷ calls) ≡ actor_ids seen calls = ground (arith, again) in
      subst IsDistinct (sym same_ids) (IsDistinct-from seen calls)
  | inr new ↦
      let gone : is_seen c.actor_id (actor_ids (c.actor_id ∷ seen) calls) ≡ false =
        ground
          (arith, is_seen-actor_ids c.actor_id (c.actor_id ∷ seen) calls, same_refl c.actor_id) in
      let with_id : actor_ids seen (c ∷ calls) ≡ c.actor_id ∷ actor_ids (c.actor_id ∷ seen) calls =
        ground (arith, new) in
      subst IsDistinct (sym with_id)
        (IsFresh-of c.actor_id _ gone, IsDistinct-from (c.actor_id ∷ seen) calls)
]

-- The IDs for which names are asked are those of the calls, each once.
pub actor_ids-IsDistinct :
    (calls : List Call)
    → IsDistinct (actor_ids [] calls)
      × ((id : Bytes) → is_seen id (actor_ids [] calls) ≡ has_call id calls)
unfolding is_seen
actor_ids-IsDistinct calls = (IsDistinct-from [] calls, λ id. is_seen-actor_ids id [] calls)
