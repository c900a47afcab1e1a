-- ===== src/Storage/Schema/Migrated.antt =====
-- What the back-fill of internal/storage/db.go must do to a table, said of the rows alone.
use mcp_webtools.Prelude.{
  ok, ℕ, ◌≡◌, refl, sym, ap, ◌∙◌, subst, ◌≢◌, ◌⊎◌, inl, inr, Bool, true, false, Option, none, some,
  List, [], ◌∷◌, map, arith, if◌then◌else◌, Bool-cases, Bytes, codes, same, eq_of_same, same_refl,
}
use mcp_webtools.Storage.Schema.{
  Row, Column, args_column, response_preview_column, created_at_column, status_column, Schema,
  backfill_tool_call_rename, renamed, dated, failed_status,
}
use mcp_webtools.Storage.Schema.Backfill.{Updates, backfilled, backfill-backfill}

-- A text column under its new name: what it holds is kept, and where it holds nothing it takes the old
-- column's value, if the table has the old column and the row a value in it.
pub record IsMoved (has : Bool) (old new result : Option Bytes) : Type 0 where
  pub kept : (t : Bytes) → new ≡ some t → t ≢ [] → result ≡ some t
  pub taken :
      (t : Bytes) → has ≡ true → old ≡ some t → (new ≡ none) ⊎ (new ≡ some []) → result ≡ some t
  pub absent : has ≡ false → result ≡ new
  pub missing : old ≡ none → result ≡ new

-- The time of the call, likewise.
pub record IsDated (has : Bool) (old new result : Option ℕ) : Type 0 where
  pub kept : (t : ℕ) → new ≡ some t → result ≡ some t
  pub taken : has ≡ true → new ≡ none → result ≡ old
  pub absent : has ≡ false → result ≡ new

-- The flag says whether the old status, where there is one, is "error".
pub record IsFlagged (has : Bool) (status : Option Bytes) (new result : Option Bool) : Type 0 where
  pub failed : has ≡ true → status ≡ some (codes "error") → result ≡ some true
  pub passed : (t : Bytes) → has ≡ true → status ≡ some t → t ≢ codes "error" → result ≡ some false
  pub absent : has ≡ false → result ≡ new
  pub missing : status ≡ none → result ≡ new

-- A row before and after. The old columns stay.
pub record IsMigrated (has : Column → Bool) (r s : Row) : Type 0 where
  pub input : IsMoved (has args_column) r.args r.input_json s.input_json
  pub output : IsMoved (has response_preview_column) r.response_preview r.output_json s.output_json
  pub time : IsDated (has created_at_column) r.created_at r.called_at s.called_at
  pub flag : IsFlagged (has status_column) r.status r.is_error s.is_error
  pub same_args : s.args ≡ r.args
  pub same_preview : s.response_preview ≡ r.response_preview
  pub same_created : s.created_at ≡ r.created_at
  pub same_status : s.status ≡ r.status

-- Row by row, in order.
abbrev pub EachMigrated : (Column → Bool) → List Row → List Row → Type 0
EachMigrated has [] [] = Unit
EachMigrated has (r ∷ rs) (s ∷ ss) = IsMigrated has r s × EachMigrated has rs ss
EachMigrated has [] (s ∷ ss) = ⊥
EachMigrated has (r ∷ rs) [] = ⊥

renamed-IsMoved :
    (has : Bool) (old new : Option Bytes)
    → IsMoved has old new (if has then renamed new old else new)
renamed-IsMoved has none new = record {
  kept = λ t e filled. ground (arith, e);
  taken = λ t there e empty. cc;
  absent = λ gone. ground (arith, gone);
  missing = λ e. ground arith;
}
renamed-IsMoved has (some o) none = record {
  kept = λ t e filled. cc;
  taken = λ t there e empty. ground (arith, there, e);
  absent = λ gone. ground (arith, gone);
  missing = λ e. cc;
}
renamed-IsMoved has (some o) (some []) = record {
  kept = λ t e filled. absurd (filled (ground (arith, e)));
  taken = λ t there e empty. ground (arith, there, e);
  absent = λ gone. ground (arith, gone);
  missing = λ e. cc;
}
renamed-IsMoved has (some o) (some (b ∷ bs)) = record {
  kept = λ t e filled. ground (arith, e);
  taken = λ t there e empty. elim empty [ inl n ↦ cc | inr n ↦ absurd (cc (ap is_some_filled n)) ];
  absent = λ gone. ground (arith, gone);
  missing = λ e. cc;
}
  where
    is_some_filled : Option Bytes → Bool
    is_some_filled none = false
    is_some_filled (some []) = false
    is_some_filled (some (b ∷ bs)) = true

dated-IsDated :
    (has : Bool) (old new : Option ℕ) → IsDated has old new (if has then dated new old else new)
dated-IsDated has old none = record {
  kept = λ t e. cc;
  taken = λ there e. ground (arith, there);
  absent = λ gone. ground (arith, gone);
}
dated-IsDated has old (some n) = record {
  kept = λ t e. ground (arith, e);
  taken = λ there e. cc;
  absent = λ gone. ground (arith, gone);
}

failed-IsFlagged :
    (has : Bool) (status : Option Bytes) (new : Option Bool)
    → IsFlagged has status new (if has then failed_status new status else new)
failed-IsFlagged has none new = record {
  failed = λ there e. cc;
  passed = λ t there e other. cc;
  absent = λ gone. ground (arith, gone);
  missing = λ e. ground arith;
}
failed-IsFlagged has (some s) new = record {
  failed = λ there e.
      let is_error : s ≡ codes "error" = cc (e) in
      rw (there, if◌then◌else◌) (ap some (rw is_error (same_refl (codes "error"))));
  passed = λ t there e other.
      let same_text : s ≡ t = cc (e) in
      let differs : same s (codes "error") ≡ false = elim (Bool-cases (same s (codes "error"))) [
        | inl here ↦ absurd (other (sym same_text ∙ eq_of_same s (codes "error") here))
        | inr there ↦ there
      ] in
      rw (there, if◌then◌else◌) (ap some differs);
  absent = λ gone. ground (arith, gone);
  missing = λ e. cc;
}

backfilled-IsMigrated : (has : Column → Bool) (r : Row) → IsMigrated has r (backfilled has r)
backfilled-IsMigrated has r = record {
  input = renamed-IsMoved (has args_column) r.args r.input_json;
  output = renamed-IsMoved (has response_preview_column) r.response_preview r.output_json;
  time = dated-IsDated (has created_at_column) r.created_at r.called_at;
  flag = failed-IsFlagged (has status_column) r.status r.is_error;
  same_args = refl;
  same_preview = refl;
  same_created = refl;
  same_status = refl;
}

each-backfilled :
    (has : Column → Bool) (rows : List Row) → EachMigrated has rows (map (backfilled has) rows)
each-backfilled has [] = tt
each-backfilled has (r ∷ rs) = (backfilled-IsMigrated has r, each-backfilled has rs)

module _ {Db : Type 0} (q : Schema Db) (rows : Db → List Row) (laws : Updates q rows) where
  -- Where an UPDATE does what SQL says of it, a back-fill that succeeds keeps in each row what a
  -- renamed column or the time of the call holds, fills an empty one from the old column where the
  -- table has it and the row a value in it, sets the error flag to whether the old status, where
  -- there is one, is "error", and leaves the old columns, and a second back-fill leaves the rows
  -- as they are.
  pub backfill-IsMigrated :
      (db next last : Db)
      → backfill_tool_call_rename q db ≡ ok next
      → backfill_tool_call_rename q next ≡ ok last
      → EachMigrated (λ c. q.has_column c db) (rows db) (rows next) × (rows last ≡ rows next)
  backfill-IsMigrated db next last h again =
      let (table, once) = backfill-backfill q rows laws db next last h again in
      (
        subst (EachMigrated (λ c. q.has_column c db) (rows db)) (sym table)
            (each-backfilled (λ c. q.has_column c db) (rows db)),
        once,
      )
