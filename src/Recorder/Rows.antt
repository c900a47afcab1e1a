-- ===== src/Recorder/Rows.antt =====
-- What a recorded call leaves in history, and what it cannot change.
use mcp_webtools.Prelude.{
  Outcome, ok, ℕ, ◌+◌, ◌≤◌, ◌<◌, ◌≡◌, refl, sym, inl, inr, Bool, true, false, Option, none, some,
  arith, leb, Bool-cases, length, take, length-take, take_of_length-le, ℤ, Bytes,
}
use mcp_webtools.Utf8.Valid.{IsUtf8}
use mcp_webtools.Utf8.Cut.{cut_to_utf8_boundary-take}
use mcp_webtools.Recorder.{
  Recorder, ToolCall, preview_limit, truncate_utf8, call_row, store_row, record_call, recorded,
}

preview_limit_pos : (n : ℤ) → 0 < preview_limit n
unfolding preview_limit
preview_limit_pos n = ground arith

-- What is kept of a text is a prefix of it, well-formed, within the limit; unless it is the whole text,
-- which the flag tells, at most three bytes of the limit are left unused.
pub record Preview (s : Bytes) (limit : ℕ) (kept : Bytes) (cut : Bool) : Type 0 where
  pub well_formed : IsUtf8 kept
  pub bounded : length kept ≤ limit
  pub whole : cut ≡ false → kept ≡ s
  pub prefix : (m : ℕ) × (kept ≡ take m s)
  pub filled : cut ≡ true → limit < length kept + 4

-- Truncating well-formed UTF-8 keeps a well-formed prefix of it within the limit: the whole text
-- where the flag is not set, and all but at most three bytes of the limit where it is.
pub truncate-Preview :
    (s : Bytes) (limit : ℕ)
    → IsUtf8 s
    → Preview s limit (truncate_utf8 s limit).0 (truncate_utf8 s limit).1
unfolding truncate_utf8
truncate-Preview s limit text = elim (Bool-cases (leb (length s) limit)) [
  | inl short ↦
      rw (short, truncate_utf8)
        (record {
          well_formed = text;
          bounded = ground arith;
          whole = λ _. refl;
          prefix = (length s, sym (take_of_length-le (length s) s (omega arith)));
          filled = λ e. cc;
        })
  | inr long ↦
      let (m, e, r) = cut_to_utf8_boundary-take limit text in
      rw (long, truncate_utf8, e)
        (record {
          well_formed = r.before;
          bounded = omega (arith, length-take m s, r.within);
          whole = λ e. cc;
          prefix = (m, refl);
          filled = λ _. ground (arith, length-take m s, r.within, r.near);
        })
]

-- The row of a call that succeeded: nothing says error, the size is that of the whole output, and
-- what is kept is the output's preview.
pub record IsSuccess {In Out : Type 0} (encode_in : In → Bytes) (encode_out : Out → Bytes)
    (limit : ℕ) (actor tool : Bytes) (given : In) (out : Out) (row : ToolCall) : Type 0 where
  pub owner : row.actor_id ≡ actor
  pub named : row.tool ≡ tool
  pub input : row.input_json ≡ encode_in given
  pub good : row.is_error ≡ false
  pub size : row.output_size ≡ length (encode_out out)
  pub preview : Preview (encode_out out) limit row.output_json row.truncated

module _ {Db In Out S : Type 0} (encode_in : In → Bytes) (encode_out : Out → Bytes)
    (encode_error : Bytes → Bytes) (rec : Recorder Db) (tool : Bytes)
    (h : Option Bytes → In → S → Outcome Bytes Out × S) (given : In) (elapsed : ℕ) (s : S)
    (db : Db) where
  -- With or without a database, an actor or a working insertion, the agent gets the answer of the
  -- tool's own handler, and the tool's state moves on the same way.
  pub recorded-answer :
      (actor : Option Bytes)
      → let r = recorded encode_in encode_out encode_error rec tool h actor given elapsed s db in
        (r.0 ≡ (h actor given s).0) × (r.1.0 ≡ (h actor given s).1)
  unfolding recorded
  recorded-answer actor = (refl, refl)

  -- A call that succeeds, by an authenticated actor and with a database, hands the database one
  -- row: the actor, the tool, the encoded input, no error, the size of the whole encoded output
  -- and its preview within the limit, given that the encoding is well-formed UTF-8.
  pub recorded-row :
      (actor : Bytes) (out : Out) (next : S)
      → rec.has_db ≡ true
      → h (some actor) given s ≡ (ok out, next)
      → IsUtf8 (encode_out out)
      → (row : ToolCall) × ((recorded encode_in encode_out encode_error rec tool h
            (some actor)
            given
            elapsed
            s
            db).1.1
          ≡ elim (rec.insert row db) [ none ↦ db | some stored ↦ stored ])
        × IsSuccess encode_in encode_out (preview_limit rec.preview_bytes) actor tool given out row
        × (row
            ≡ call_row encode_in encode_out encode_error
                (preview_limit rec.preview_bytes)
                actor
                tool
                given
                (ok out)
                elapsed)
  unfolding recorded record_call call_row store_row
  recorded-row actor out next has answers text =
      let p = truncate-Preview (encode_out out) (preview_limit rec.preview_bytes) text in
      (
        call_row encode_in encode_out encode_error (preview_limit rec.preview_bytes) actor tool
            given (ok out) elapsed,
        rw (answers, has) refl,
        record { owner = refl; named = refl; input = refl; good = refl; size = refl; preview = p },
        refl,
      )
