-- ===== src/Storage/History/Pages.antt =====
-- Reading history by pages: the rows that a filter selects, each once, whatever is recorded meanwhile.
use mcp_webtools.Prelude.{
  Outcome, ok, err, ℕ, zero, suc, ◌≤◌, ◌<◌, ◌≡◌, refl, sym, ap, ◌∙◌, ◌⊎◌, inl, inr, true, false,
  ◌&&◌, Option, none, some, List, [], ◌∷◌, ◌++◌, arith, ◌==◌, if◌then◌else◌, le_or_lt, length, take,
  drop, length-append, take-append-drop, length-take, length-drop, take_of_length-le, ℤ, Bytes,
  is_empty,
}
use mcp_webtools.Storage.{StorageError}
use mcp_webtools.Storage.History.{
  Call, HistoryFilter, Select, Calls, set, page_size, last_id, next_cursor, find_page,
  list_tool_calls,
}
use mcp_webtools.Storage.History.Rows.{
  filter, All, matches, after_ok, Holds, All-split, filter-all, filter_after,
}

page_size_pos : (limit : ℤ) → (0 < page_size limit) × (page_size limit ≤ 200)
unfolding page_size
page_size_pos limit = ground arith

last_id-end : (us : List Call) (x : Call) → last_id (us ++ x ∷ []) ≡ x.id
unfolding last_id
last_id-end [] x = refl
last_id-end (u ∷ []) x = refl
last_id-end (u ∷ v ∷ us) x = last_id-end (v ∷ us) x

-- What `take` leaves when the page is full, with its last row.
full_page :
    (n : ℕ) (ys : List Call)
    → suc n ≤ length ys
    → (us : List Call) × (x : Call) × (take (suc n) ys ≡ us ++ x ∷ [])
      × (ys ≡ us ++ x ∷ drop (suc n) ys)
full_page n [] h = absurd (omega arith)
full_page zero (y ∷ ys) h = ([], y, refl, refl)
full_page (suc n) (y ∷ ys) h =
    let (us, x, page, split) = full_page n ys (omega arith) in
    (y ∷ us, x, ap (◌∷◌ y) page, ap (◌∷◌ y) split)

append_assoc : (xs ys zs : List Call) → (xs ++ ys) ++ zs ≡ xs ++ (ys ++ zs)
append_assoc [] ys zs = refl
append_assoc (x ∷ xs) ys zs = ap (◌∷◌ x) (append_assoc xs ys zs)

regroup :
    (pre us : List Call) (x : Call) (zs : List Call)
    → (pre ++ us) ++ x ∷ zs ≡ (pre ++ (us ++ x ∷ [])) ++ zs
regroup pre us x zs =
    sym (append_assoc (pre ++ us) (x ∷ []) zs) ∙ ap (λ l. l ++ zs) (append_assoc pre us (x ∷ []))

-- A page is all that is left, without a cursor, or full, with the cursor at its last row.
page_cases :
    (n : ℕ) (ys : List Call)
    → 0 < n
    → ((take n ys ≡ ys) × (next_cursor n (take n ys) ≡ []))
      ⊎ ((us : List Call) × (x : Call) × (take n ys ≡ us ++ x ∷ [])
          × (next_cursor n (take n ys) ≡ x.id)
          × (ys ≡ us ++ x ∷ drop n ys))
unfolding next_cursor
page_cases zero ys h = absurd (omega arith)
page_cases (suc n) ys h = elim (le_or_lt (suc n) (length ys)) [
  | inr short ↦
      let all = take_of_length-le (suc n) ys (omega arith) in
      let other : (length ys == suc n) ≡ false = ground arith in inl (all, rw (all, other) refl)
  | inl full ↦
      let (us, x, page, split) = full_page n ys full in
      let size : (length (us ++ x ∷ []) == suc n) ≡ true =
        ground (arith, length-take (suc n) ys, ap length page) in
      inr (us, x, page, rw (page, size) (last_id-end us x), split)
]

All-true : {A : Type 0} (xs : List A) → All (λ d. true ≡ true) xs
All-true [] = tt
All-true (x ∷ xs) = (refl, All-true xs)

module _ {Db : Type 0} (q : Calls Db) where
  -- The answer to a page of `ys`.
  abbrev pub page_of : HistoryFilter → List Call → Outcome StorageError (List Call × Bytes)
  page_of f ys =
      let page = take (page_size f.limit) ys in ok (page, next_cursor (page_size f.limit) page)

  find_page-selects :
      (rows : List Call) (db : Db) (f : HistoryFilter) (after : Option Call)
      → Holds q rows db
      → find_page q f after db
        ≡ page_of f (filter (λ d. matches f d && after_ok q.id_lt after d) rows)
  unfolding find_page
  find_page-selects rows db f after h =
      let s : Select = record {
        actor_id = set f.actor_id;
        tool = set f.tool;
        is_error = f.is_error;
        after = after;
        limit = page_size f.limit;
      } in
      rw (h.selects s, find_page) refl

  list_tool_calls-row :
      (db : Db) (f : HistoryFilter) (x : Call)
      → is_empty f.cursor ≡ false
      → q.first f.cursor db ≡ ok x
      → list_tool_calls q f db ≡ find_page q f (some x) db
  unfolding list_tool_calls
  list_tool_calls-row db f x named at = ground (arith, named, at)

  -- Where the statements do what SQL says of them, a page behind a cursor holds the selected rows
  -- that follow the cursor's row, as many as the page size allows, whatever rows stand before it
  -- by then.
  pub list_tool_calls-after :
      (rows : List Call) (db : Db) (f : HistoryFilter) (pre : List Call) (x : Call) (ys : List Call)
      → Holds q rows db
      → filter (matches f) rows ≡ pre ++ x ∷ ys
      → f.cursor ≡ x.id
      → list_tool_calls q f db ≡ page_of f ys
  list_tool_calls-after rows db f pre x ys h e at =
      let here =
        All-split (λ c. (q.first c.id db ≡ ok c) × (is_empty c.id ≡ false)) (matches f) rows pre x
          ys h.found e in
      list_tool_calls-row db f x (ap is_empty at ∙ here.1) (ap (λ i. q.first i db) at ∙ here.0)
      ∙ find_page-selects rows db f (some x) h
      ∙ ap (page_of f) (filter_after q.id_lt (matches f) rows pre x ys h.newest_first e)

  pub list_tool_calls-first :
      (rows : List Call) (db : Db) (f : HistoryFilter)
      → Holds q rows db
      → f.cursor ≡ []
      → list_tool_calls q f db ≡ page_of f (filter (matches f) rows)
  unfolding list_tool_calls
  list_tool_calls-first rows db f h at =
      let start : list_tool_calls q f db ≡ find_page q f none db = ground (arith, ap is_empty at) in
      start
      ∙ find_page-selects rows db f none h
      ∙ ap (page_of f) (filter-all (matches f) (λ c. true) rows (All-true rows))

  -- The pages from the filter's cursor on, or `none` where one fails or the fuel runs out.
  unfoldable pub read_history : ℕ → HistoryFilter → Db → Option (List Call)
  read_history zero f db = none
  read_history (suc fuel) f db = elim (list_tool_calls q f db) [
    | err e ↦ none
    | ok (calls, next) ↦
        let rest = read_history fuel (record f { cursor = next }) db in
        if is_empty next
        then some calls
        else elim rest [ none ↦ none | some later ↦ some (calls ++ later) ]
  ]

  read_history-last :
      (fuel : ℕ) (f : HistoryFilter) (db : Db) (calls : List Call) (next : Bytes)
      → list_tool_calls q f db ≡ ok (calls, next)
      → next ≡ []
      → read_history (suc fuel) f db ≡ some calls
  unfolding read_history
  read_history-last fuel f db calls next page e = ground (arith, page, ap is_empty e)

  read_history-more :
      (fuel : ℕ) (f : HistoryFilter) (db : Db) (calls : List Call) (next : Bytes)
      (later : List Call)
      → list_tool_calls q f db ≡ ok (calls, next)
      → is_empty next ≡ false
      → read_history fuel (record f { cursor = next }) db ≡ some later
      → read_history (suc fuel) f db ≡ some (calls ++ later)
  unfolding read_history
  read_history-more fuel f db calls next later page named rest = ground (arith, page, named, rest)

  -- From any page on, the reader gets that page's rows and all that follow.
  read_history-from :
      (rows : List Call) (db : Db) (h : Holds q rows db) (fuel : ℕ) (f : HistoryFilter)
      (pre ys : List Call)
      → filter (matches f) rows ≡ pre ++ ys
      → list_tool_calls q f db ≡ page_of f ys
      → length ys < fuel
      → read_history fuel f db ≡ some ys
  read_history-from rows db h zero f pre ys e page enough = absurd (omega arith)
  read_history-from rows db h (suc fuel) f pre ys e page enough =
      let n = page_size f.limit in
      elim (page_cases n ys (page_size_pos f.limit).0) [
        | inl (all, none_left) ↦
            read_history-last fuel f db (take n ys) _ page none_left ∙ ap some all
        | inr (us, x, full, cursor, split) ↦
            let g : HistoryFilter = record f { cursor = x.id } in
            let here : filter (matches f) rows ≡ (pre ++ us) ++ x ∷ drop n ys =
              e ∙ ap (λ l. pre ++ l) split ∙ sym (append_assoc pre us (x ∷ drop n ys)) in
            let there : filter (matches f) rows ≡ (pre ++ (us ++ x ∷ [])) ++ drop n ys =
              here ∙ regroup pre us x (drop n ys) in
            let named =
              (All-split (λ c. (q.first c.id db ≡ ok c) × (is_empty c.id ≡ false)) (matches f) rows
                _ x _ h.found here).1 in
            let later =
              read_history-from rows db h fuel g (pre ++ (us ++ x ∷ [])) (drop n ys) there
                (list_tool_calls-after rows db g (pre ++ us) x (drop n ys) h here refl)
                (omega (
                  arith,
                  page_size_pos f.limit,
                  length-drop n ys,
                  ap length split,
                  length-append us (x ∷ drop n ys),
                )) in
            read_history-more fuel f db (take n ys) (next_cursor n (take n ys)) (drop n ys) page
              (ap is_empty cursor ∙ named) (rw cursor later)
            ∙ ap some (take-append-drop n ys)
      ]

  -- Where the statements do what SQL says of them, reading history from the start and following
  -- the cursor yields the rows that the filter selects, newest first and each once, within one
  -- round for each row and one more.
  pub read_history_complete :
      (rows : List Call) (db : Db) (f : HistoryFilter)
      → Holds q rows db
      → f.cursor ≡ []
      → read_history (suc (length (filter (matches f) rows))) f db ≡ some (filter (matches f) rows)
  read_history_complete rows db f h at =
      read_history-from rows db h _ f [] (filter (matches f) rows) refl
        (list_tool_calls-first rows db f h at) (omega arith)
