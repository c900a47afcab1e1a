-- ===== src/Cache/Database/Evict.antt =====
-- When the recursion of the database's eviction ends.
use mcp_webtools.Prelude.{
  ℕ, zero, suc, ◌<◌, ◌≡◌, refl, ap, ◌∙◌, ◌⊎◌, inl, inr, true, false, List, arith, Bool-cases,
  length, is_empty,
}
use mcp_webtools.Cache.Database.{CacheRow, Statements, DatabaseCache, exceeds, evict_rows}

-- What SQL says of a DELETE of the oldest row that does not fail: it makes the rows fewer.
pub record Evicts {Db : Type 0} (q : Statements Db) (rows : Db → List CacheRow) : Type 0 where
  pub deletes :
      (db : Db)
      → is_empty (q.oldest db) ≡ false
      → length (rows (q.delete (q.oldest db) db)) < length (rows db)

module _ {Db : Type 0} (c : DatabaseCache Db) (rows : Db → List CacheRow)
    (laws : Evicts c.statements rows) where
  -- Where a DELETE of the oldest row makes the rows fewer, the eviction of the database cache ends
  -- within one round for each row and one more, with the sum of the sizes within the budget or
  -- with no oldest row that has a key.
  pub evict_settles :
      (fuel : ℕ) (db : Db)
      → length (rows db) < fuel
      → (exceeds c (evict_rows c fuel db) ≡ false)
        ⊎ (is_empty (c.statements.oldest (evict_rows c fuel db)) ≡ true)
  unfolding evict_rows
  evict_settles zero db h = absurd (omega arith)
  evict_settles (suc fuel) db h = elim (Bool-cases (exceeds c db)) [
    | inr fits ↦ inl (rw (fits, evict_rows) fits)
    | inl over ↦ elim (Bool-cases (is_empty (c.statements.oldest db))) [
      | inl none_left ↦ inr (rw (over, none_left, evict_rows) none_left)
      | inr named ↦
          rw (over, named, evict_rows)
            (evict_settles fuel (c.statements.delete (c.statements.oldest db) db)
              (omega (arith, laws.deletes db named)))
    ]
  ]

-- Where the cache in the database exceeds its budget, the oldest row has a key and its DELETE
-- leaves the database as it is, the eviction is over budget after any number of rounds, with
-- nothing deleted.
pub evict_stuck :
    {Db : Type 0} (c : DatabaseCache Db) (fuel : ℕ) (db : Db)
    → exceeds c db ≡ true
    → is_empty (c.statements.oldest db) ≡ false
    → c.statements.delete (c.statements.oldest db) db ≡ db
    → (evict_rows c fuel db ≡ db) × (exceeds c (evict_rows c fuel db) ≡ true)
unfolding evict_rows
evict_stuck c zero db over named fails = (refl, over)
evict_stuck c (suc fuel) db over named fails =
    let (same_db, still) = evict_stuck c fuel db over named fails in
    let e : evict_rows c (suc fuel) db ≡ db =
      rw (over, named, evict_rows) (ap (evict_rows c fuel) fails ∙ same_db) in
    (e, ap (exceeds c) e ∙ over)
