-- ===== src/Storage/Schema/Backfill.antt =====
-- What the back-fill does to the rows, and that it does it once.
use mcp_webtools.Prelude.{
  ok, ℕ, ◌≡◌, refl, sym, ap, ◌∙◌, inl, inr, Bool, true, false, Option, none, some, List, [], ◌∷◌,
  map, arith, if◌then◌else◌, Bool-cases, Bytes, Outcome-cases,
}
use mcp_webtools.Storage.Schema.{
  Row, Column, args_column, response_preview_column, created_at_column, status_column, renamed,
  dated, failed_status, update, Schema, fill, fill_all, old_columns, backfill_tool_call_rename,
}

renamed-renamed : (to from : Option Bytes) → renamed (renamed to from) from ≡ renamed to from
renamed-renamed to none = refl
renamed-renamed none (some old) = ground arith
renamed-renamed (some new) (some old) = ground arith

dated-dated : (at created : Option ℕ) → dated (dated at created) created ≡ dated at created
dated-dated none none = refl
dated-dated none (some t) = refl
dated-dated (some t) created = refl

failed-failed :
    (e : Option Bool) (status : Option Bytes)
    → failed_status (failed_status e status) status ≡ failed_status e status
failed-failed e none = refl
failed-failed e (some status) = refl

-- The updates for the columns that the table has.
abbrev pub filled : (Column → Bool) → List Column → Row → Row
filled has [] r = r
filled has (c ∷ columns) r = filled has columns (if has c then update c r else r)

-- The row after the migration, column by column.
abbrev pub backfilled : (Column → Bool) → Row → Row
backfilled has r = record r {
  input_json = if has args_column then renamed r.input_json r.args else r.input_json;
  output_json =
      if has response_preview_column
      then renamed r.output_json r.response_preview
      else r.output_json;
  called_at = if has created_at_column then dated r.called_at r.created_at else r.called_at;
  is_error = if has status_column then failed_status r.is_error r.status else r.is_error;
}

filled-backfilled : (has : Column → Bool) (r : Row) → filled has old_columns r ≡ backfilled has r
filled-backfilled has r =
    split (has args_column) (has response_preview_column) (has created_at_column)
      (has status_column)
  where
    split :
        (a p d s : Bool)
        → (let r1 = if a then update args_column r else r in
            let r2 = if p then update response_preview_column r1 else r1 in
            let r3 = if d then update created_at_column r2 else r2 in
            if s then update status_column r3 else r3)
          ≡ record r {
            input_json = if a then renamed r.input_json r.args else r.input_json;
            output_json = if p then renamed r.output_json r.response_preview else r.output_json;
            called_at = if d then dated r.called_at r.created_at else r.called_at;
            is_error = if s then failed_status r.is_error r.status else r.is_error;
          }
    split a p d s = ground arith

twice :
    {A : Type 0} (b : Bool) (f : A → A) (a : A)
    → f (f a) ≡ f a
    → (if b then f (if b then f a else a) else (if b then f a else a)) ≡ (if b then f a else a)
twice true f a h = h
twice false f a h = refl

backfilled-backfilled :
    (has : Column → Bool) (r : Row) → backfilled has (backfilled has r) ≡ backfilled has r
backfilled-backfilled has r = λ i. record r {
  input_json =
      twice (has args_column) (λ x. renamed x r.args) r.input_json
        (renamed-renamed r.input_json r.args) i;
  output_json =
      twice (has response_preview_column) (λ x. renamed x r.response_preview) r.output_json
        (renamed-renamed r.output_json r.response_preview) i;
  called_at =
      twice (has created_at_column) (λ x. dated x r.created_at) r.called_at
        (dated-dated r.called_at r.created_at) i;
  is_error =
      twice (has status_column) (λ x. failed_status x r.status) r.is_error
        (failed-failed r.is_error r.status) i;
}

-- What SQL says of an UPDATE of the whole table.
pub record Updates {Db : Type 0} (q : Schema Db) (rows : Db → List Row) : Type 0 where
  pub table : (f : Row → Row) (db next : Db) → q.exec f db ≡ ok next → rows next ≡ map f (rows db)
  pub columns :
      (f : Row → Row) (db next : Db)
      → q.exec f db ≡ ok next
      → (c : Column) → q.has_column c next ≡ q.has_column c db

map-map {ℓ} : {A : Type ℓ} (f g : A → A) (xs : List A) → map f (map g xs) ≡ map (λ x. f (g x)) xs
map-map f g [] = refl
map-map f g (x ∷ xs) = ap (◌∷◌ (f (g x))) (map-map f g xs)

map_id {ℓ} : {A : Type ℓ} (xs : List A) → map (λ x. x) xs ≡ xs
map_id [] = refl
map_id (x ∷ xs) = ap (◌∷◌ x) (map_id xs)

map_same {ℓ} :
    {A : Type ℓ} (f g : A → A) (xs : List A) → ((x : A) → f x ≡ g x) → map f xs ≡ map g xs
map_same f g [] h = refl
map_same f g (x ∷ xs) h = λ i. h x i ∷ map_same f g xs h i

module _ {Db : Type 0} (q : Schema Db) (rows : Db → List Row) (laws : Updates q rows) where
  fill-rows :
      (c : Column) (db next : Db)
      → fill q c db ≡ ok next
      → (rows next ≡ map (λ r. if q.has_column c db then update c r else r) (rows db))
        × ((d : Column) → q.has_column d next ≡ q.has_column d db)
  unfolding fill
  fill-rows c db next h = elim (Bool-cases (q.has_column c db)) [
    | inl there ↦
        let ran : q.exec (update c) db ≡ ok next = ground (arith, there, h) in
        (
          laws.table (update c) db next ran ∙ map_same _ _ (rows db) (λ r. rw there refl),
          laws.columns (update c) db next ran,
        )
    | inr gone ↦
        let same_db : db ≡ next = grind (arith, gone, h) in
        (
          ap rows (sym same_db)
              ∙ sym (map_id (rows db))
              ∙ map_same _ _ (rows db) (λ r. rw gone refl),
          λ d. ap (q.has_column d) (sym same_db),
        )
  ]

  fill_all-rows :
      (columns : List Column) (db next : Db)
      → fill_all q columns db ≡ ok next
      → (rows next ≡ map (filled (λ c. q.has_column c db) columns) (rows db))
        × ((d : Column) → q.has_column d next ≡ q.has_column d db)
  unfolding fill_all
  fill_all-rows [] db next h =
      let same_db : db ≡ next = ground (arith, h) in
      (ap rows (sym same_db) ∙ sym (map_id (rows db)), λ d. ap (q.has_column d) (sym same_db))
  fill_all-rows (c ∷ columns) db next h = elim (Outcome-cases (fill q c db)) [
    | inl (e, bad) ↦ absurd (ground (arith, bad, h))
    | inr (mid, ran) ↦
        let (table, same_columns) = fill-rows c db mid ran in
        let (table_rest, same_rest) = fill_all-rows columns mid next (ground (arith, ran, h)) in
        (
          table_rest
              ∙ (λ i. map (filled (λ d. same_columns d i) columns) (table i))
              ∙ map-map (filled (λ d. q.has_column d db) columns) _ (rows db),
          λ d. same_rest d ∙ same_columns d,
        )
  ]

  pub backfill-rows :
      (db next : Db)
      → backfill_tool_call_rename q db ≡ ok next
      → rows next ≡ map (backfilled (λ c. q.has_column c db)) (rows db)
  unfolding backfill_tool_call_rename
  backfill-rows db next h =
      (fill_all-rows old_columns db next h).0
      ∙ map_same _ _ (rows db) (filled-backfilled (λ c. q.has_column c db))

  -- Where an UPDATE does what SQL says of it, a back-fill that succeeds gives each renamed column
  -- of each row its old value where the new one is empty and the old is there, and the error flag
  -- its old status where that is there, and a second back-fill leaves the rows as they are.
  pub backfill-backfill :
      (db next last : Db)
      → backfill_tool_call_rename q db ≡ ok next
      → backfill_tool_call_rename q next ≡ ok last
      → (rows next ≡ map (backfilled (λ c. q.has_column c db)) (rows db)) × (rows last ≡ rows next)
  unfolding backfill_tool_call_rename
  backfill-backfill db next last h again =
      let first = backfill-rows db next h in
      let same_columns = (fill_all-rows old_columns db next h).1 in
      (
        first,
        backfill-rows next last again
            ∙ (λ i. map (backfilled (λ c. same_columns c i)) (first i))
            ∙ map-map _ _ (rows db)
            ∙ map_same _ _ (rows db) (backfilled-backfilled (λ c. q.has_column c db))
            ∙ sym first,
      )
