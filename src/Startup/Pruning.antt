-- ===== src/Startup/Pruning.antt =====
-- `pruneHistoryUntilDone`: history older than the retention is deleted at each tick.
use mcp_webtools.Prelude.{
  ok, err, ℕ, zero, suc, ◌<◌, ◌≡◌, refl, ap, ◌∙◌, Bool, true, not, ◌&&◌, List, [], ◌∷◌, arith,
  if◌then◌else◌, ℤ, pos, negsuc, pos_part, sub_ℕ, ltb_ℤ, leb_ℤ,
}
use mcp_webtools.Storage.History.{Call, Calls, prune_tool_calls}
use mcp_webtools.Storage.History.Rows.{filter}

module _ {Db : Type 0} (q : Calls Db) where
  -- One sweep; its failure only goes to the log.
  unfoldable pub sweep : ℤ → ℕ → Db → Db
  sweep retention now db = elim (prune_tool_calls q retention now db).1 [
    | err e ↦ db
    | ok next ↦ next
  ]

  abbrev pub sweeps : ℤ → List ℕ → Db → Db
  sweeps retention [] db = db
  sweeps retention (now ∷ ticks) db = sweeps retention ticks (sweep retention now db)

  -- The loop, with the times at which it sweeps until the context ends.
  unfoldable pub prune_history_until_done : ℤ → List ℕ → Db → Db
  unfolding sweep
  prune_history_until_done retention ticks db =
      if leb_ℤ retention (pos 0) then db else sweeps retention ticks db

-- A call that is not older than the retention at a time.
abbrev pub is_kept : ℕ → ℕ → Call → Bool
is_kept retention now c = not (ltb_ℤ (pos c.called_at) (sub_ℕ now retention))

abbrev pub is_kept_at_all : ℕ → List ℕ → Call → Bool
is_kept_at_all retention [] c = true
is_kept_at_all retention (now ∷ ticks) c =
    is_kept retention now c && is_kept_at_all retention ticks c

-- What SQL says of `DELETE ... WHERE called_at < ?` on the rows that the table holds.
pub record Deletes {Db : Type 0} (q : Calls Db) (rows : Db → List Call) : Type 0 where
  pub deletes :
      (cutoff : ℤ) (db : Db)
      → (next : Db) × ((q.delete_before cutoff db).1 ≡ ok next)
        × (rows next ≡ filter (λ c. not (ltb_ℤ (pos c.called_at) cutoff)) (rows db))

filter-filter {ℓ} :
    {A : Type ℓ} (p r : A → Bool) (xs : List A)
    → filter p (filter r xs) ≡ filter (λ x. r x && p x) xs
unfolding filter
filter-filter p r [] = refl
filter-filter p r (x ∷ xs) = ground (arith, filter-filter p r xs)

filter-true {ℓ} : {A : Type ℓ} (xs : List A) → xs ≡ filter (λ x. true) xs
unfolding filter
filter-true [] = refl
filter-true (x ∷ xs) = ap (λ rest. x ∷ rest) (filter-true xs)

module _ {Db : Type 0} (q : Calls Db) (rows : Db → List Call) (laws : Deletes q rows) where
  rows-sweep :
      (retention now : ℕ) (db : Db)
      → 0 < retention
      → rows (sweep q (pos retention) now db) ≡ filter (is_kept retention now) (rows db)
  unfolding sweep prune_tool_calls
  rows-sweep retention now db h =
      let (next, done, table) = laws.deletes (sub_ℕ now retention) db in ground (arith, done, table)

  rows-sweeps :
      (retention : ℕ) (ticks : List ℕ) (db : Db)
      → 0 < retention
      → rows (sweeps q (pos retention) ticks db) ≡ filter (is_kept_at_all retention ticks) (rows db)
  rows-sweeps retention [] db h = filter-true (rows db)
  rows-sweeps retention (now ∷ ticks) db h =
      rows-sweeps retention ticks (sweep q (pos retention) now db) h
      ∙ ap (filter (is_kept_at_all retention ticks)) (rows-sweep retention now db h)
      ∙ filter-filter (is_kept_at_all retention ticks) (is_kept retention now) (rows db)

  -- Where the DELETE does what SQL says of it, the loop over any sweeps leaves exactly the rows
  -- that were not older than the retention at any of them, and all rows where the retention is not
  -- positive.
  pub prune_history-rows :
      (retention : ℤ) (ticks : List ℕ) (db : Db)
      → rows (prune_history_until_done q retention ticks db) ≡ (
          if leb_ℤ retention (pos 0)
          then rows db
          else filter (is_kept_at_all (pos_part retention) ticks) (rows db))
  unfolding prune_history_until_done
  prune_history-rows (negsuc n) ticks db = ground arith
  prune_history-rows (pos zero) ticks db = ground arith
  prune_history-rows (pos (suc n)) ticks db =
      ground (arith, rows-sweeps (suc n) ticks db (omega arith))
