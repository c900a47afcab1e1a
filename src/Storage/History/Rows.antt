-- ===== src/Storage/History/Rows.antt =====
-- The rows of the history table, and what SQL says of a SELECT on them.
use mcp_webtools.Prelude.{
  ok, ◌≡◌, refl, subst, inl, inr, Bool, true, false, not, ◌&&◌, ◌||◌, Option, none, some, List, [],
  ◌∷◌, ◌++◌, arith, ltb, ◌==◌, if◌then◌else◌, Bool-cases, take, Bytes, same, is_empty,
}
use mcp_webtools.Storage.History.{Call, HistoryFilter, Select, Calls, set}

unfoldable pub filter {ℓ} : {A : Type ℓ} → (A → Bool) → List A → List A
filter p [] = []
filter p (x ∷ xs) = let rest = filter p xs in if p x then x ∷ rest else rest

abbrev pub All {ℓ} : {A : Type ℓ} → (A → Type 0) → List A → Type 0
All P [] = Unit
All P (x ∷ xs) = P x × All P xs

-- The cursor's condition.
abbrev pub older : (Bytes → Bytes → Bool) → Call → Call → Bool
older id_lt c x = ltb c.called_at x.called_at || ((c.called_at == x.called_at) && id_lt c.id x.id)

-- Newest first, and strictly.
abbrev pub IsNewestFirst : (Bytes → Bytes → Bool) → List Call → Type 0
IsNewestFirst id_lt [] = Unit
IsNewestFirst id_lt (c ∷ cs) =
    (older id_lt c c ≡ false)
    × All (λ d. (older id_lt d c ≡ true) × (older id_lt c d ≡ false)) cs
    × IsNewestFirst id_lt cs

abbrev pub wanted : Option Bytes → Bytes → Bool
wanted none s = true
wanted (some t) s = same t s

abbrev pub flagged : Option Bool → Bool → Bool
flagged none e = true
flagged (some true) e = e
flagged (some false) e = not e

-- The filter's own conditions on a row.
abbrev pub matches : HistoryFilter → Call → Bool
matches f c =
    wanted (set f.actor_id) c.actor_id
    && (wanted (set f.tool) c.tool && flagged f.is_error c.is_error)

abbrev pub after_ok : (Bytes → Bytes → Bool) → Option Call → Call → Bool
after_ok id_lt none c = true
after_ok id_lt (some x) c = older id_lt c x

-- The conditions of a SELECT on a row.
abbrev pub chosen : (Bytes → Bytes → Bool) → Select → Call → Bool
chosen id_lt s c =
    (wanted s.actor_id c.actor_id && (wanted s.tool c.tool && flagged s.is_error c.is_error))
    && after_ok id_lt s.after c

-- The table holds these rows, and the statements do what SQL says of them.
pub record Holds {Db : Type 0} (q : Calls Db) (rows : List Call) (db : Db) : Type 0 where
  pub newest_first : IsNewestFirst q.id_lt rows
  pub found : All (λ c. (q.first c.id db ≡ ok c) × (is_empty c.id ≡ false)) rows
  pub selects : (s : Select) → q.find s db ≡ ok (take s.limit (filter (chosen q.id_lt s) rows))

module _ {ℓ} {A : Type ℓ} where
  pub All-split :
      (P : A → Type 0) (p : A → Bool) (rows pre : List A) (x : A) (ys : List A)
      → All P rows
      → filter p rows ≡ pre ++ x ∷ ys
      → P x
  unfolding filter
  All-split P p [] [] x ys all e = absurd (cc)
  All-split P p [] (z ∷ pre) x ys all e = absurd (cc)
  All-split P p (c ∷ cs) pre x ys all e = elim (Bool-cases (p c)) [
    | inr left ↦ All-split P p cs pre x ys all.1 (ground (arith, left))
    | inl taken ↦
        elim pre as (λ pre. filter p (c ∷ cs) ≡ pre ++ x ∷ ys → P x) [
          | [] ↦ λ e. subst P (ground (arith, taken)) all.0
          | ◌∷◌ z pre ↦ λ e. All-split P p cs pre x ys all.1 (ground (arith, taken))
        ]
          e
  ]

  pub filter-all :
      (p r : A → Bool) (xs : List A)
      → All (λ d. r d ≡ true) xs
      → filter (λ d. p d && r d) xs ≡ filter p xs
  unfolding filter
  filter-all p r [] all = refl
  filter-all p r (x ∷ xs) all = ground (arith, filter-all p r xs all.1)

  pub All-first : (P Q : A → Type 0) (xs : List A) → All (λ d. P d × Q d) xs → All P xs
  All-first P Q [] all = tt
  All-first P Q (x ∷ xs) all = (all.0.0, All-first P Q xs all.1)

-- What the cursor's condition leaves of the rows selected are those behind the cursor's row.
pub filter_after :
    (id_lt : Bytes → Bytes → Bool) (p : Call → Bool) (rows pre : List Call) (x : Call)
    (ys : List Call)
    → IsNewestFirst id_lt rows
    → filter p rows ≡ pre ++ x ∷ ys
    → filter (λ d. p d && older id_lt d x) rows ≡ ys
unfolding filter
filter_after id_lt p [] [] x ys sorted e = absurd (cc)
filter_after id_lt p [] (z ∷ pre) x ys sorted e = absurd (cc)
filter_after id_lt p (c ∷ cs) pre x ys sorted e = elim (Bool-cases (p c)) [
  | inr left ↦
      let rest = filter_after id_lt p cs pre x ys sorted.2 (ground (arith, left)) in
      ground (arith, left, rest)
  | inl taken ↦
      elim pre
          as (λ pre.
            filter p (c ∷ cs) ≡ pre ++ x ∷ ys
            → filter (λ d. p d && older id_lt d x) (c ∷ cs) ≡ ys) [
              | [] ↦ λ e.
                  let same_row : c ≡ x = ground (arith, taken) in
                  let tail : filter p cs ≡ ys = ground (arith, taken) in
                  let here : filter (λ d. p d && older id_lt d c) (c ∷ cs) ≡ ys = ground (
                    arith,
                    sorted.0,
                    filter-all p (λ d. older id_lt d c) cs
                        (All-first (λ d. older id_lt d c ≡ true) (λ d. older id_lt c d ≡ false) cs
                          sorted.1),
                  ) in
                  subst (λ z. filter (λ d. p d && older id_lt d z) (c ∷ cs) ≡ ys) same_row here
              | ◌∷◌ z pre ↦ λ e.
                  let behind : filter p cs ≡ pre ++ x ∷ ys = ground (arith, taken) in
                  let newer =
                    All-split (λ d. (older id_lt d c ≡ true) × (older id_lt c d ≡ false)) p cs pre x
                      ys sorted.1 behind in
                  let rest = filter_after id_lt p cs pre x ys sorted.2 behind in
                  ground (arith, newer.1, rest)
            ]
        e
]
