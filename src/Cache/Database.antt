-- ===== src/Cache/Database.antt =====
-- `databaseCache` of internal/cache/cache.go. The statements on the table and the JSON of the values are
-- parameters. The errors of the statements are not looked at, so a statement that fails leaves the
-- database; a SUM that fails, or is over no rows, gives 0.
pub mod Evict
use mcp_webtools.Prelude.{
  ℕ, zero, suc, Bool, true, false, Option, none, some, if◌then◌else◌, ℤ, pos, ltb_ℤ, leb_ℤ, shift,
  Bytes, is_empty,
}

pub record CacheRow : Type 0 where
  pub key : Bytes
  pub value : Bytes
  pub size : ℕ
  pub expires_at : ℕ
  pub last_accessed_at : ℕ

-- `first` has the condition `key = ? AND expires_at > ?`; `oldest` is the key of the row that was
-- accessed first, or empty; `expire` deletes where `expires_at <= ?`.
pub record Statements (Db : Type 0) : Type 0 where
  pub first : Bytes → ℕ → Db → Option CacheRow
  pub touch : Bytes → ℕ → Db → Db
  pub save : CacheRow → Db → Db
  pub sum_size : Db → ℕ
  pub oldest : Db → Bytes
  pub delete : Bytes → Db → Db
  pub count : Db → ℕ
  pub expire : ℕ → Db → Db

pub record DatabaseCache (Db : Type 0) : Type 0 where
  pub statements : Statements Db
  pub max_bytes : ℤ
  pub ttl : ℤ

-- 1 << 30
abbrev pub fallback_max_bytes : ℤ
fallback_max_bytes = pos 1_073_741_824

-- 5 * time.Minute
abbrev pub fallback_ttl : ℤ
fallback_ttl = pos 300_000_000_000

unfoldable pub new_database : {Db : Type 0} → Statements Db → ℤ → ℤ → DatabaseCache Db
new_database q max_bytes ttl = record {
  statements = q;
  max_bytes = if leb_ℤ max_bytes (pos 0) then fallback_max_bytes else max_bytes;
  ttl = if leb_ℤ ttl (pos 0) then fallback_ttl else ttl;
}

module _ {Db V : Type 0} (c : DatabaseCache Db) where
  -- `decode` is json.Unmarshal.
  unfoldable pub get_row : (Bytes → Option V) → Bytes → ℕ → Db → Option V × Db
  get_row decode key now db = elim (c.statements.first key now db) [
    | none ↦ (none, db)
    | some row ↦ (decode row.value, c.statements.touch key now db)
  ]

module _ {Db : Type 0} (c : DatabaseCache Db) where
  abbrev pub exceeds : Db → Bool
  exceeds db = ltb_ℤ c.max_bytes (pos (c.statements.sum_size db))

  -- The recursion, on fuel.
  unfoldable pub evict_rows : ℕ → Db → Db
  evict_rows zero db = db
  evict_rows (suc fuel) db = elim (exceeds db) [
    | false ↦ db
    | true ↦ elim (is_empty (c.statements.oldest db)) [
      | true ↦ db
      | false ↦ evict_rows fuel (c.statements.delete (c.statements.oldest db) db)
    ]
  ]

  unfoldable pub used : Db → ℕ
  used db = c.statements.sum_size db

  unfoldable pub len_rows : Db → ℕ
  len_rows db = c.statements.count db

  unfoldable pub expire_rows : ℕ → Db → Db
  expire_rows now db = c.statements.expire now db

module _ {Db V : Type 0} (c : DatabaseCache Db) where
  -- `encode` is json.Marshal.
  unfoldable pub put_row : (V → Option Bytes) → ℕ → Bytes → V → ℕ → ℕ → Db → Db
  unfolding evict_rows
  put_row encode fuel key value size now db = elim (encode value) [
    | none ↦ db
    | some encoded ↦
        let row : CacheRow = record {
          key = key;
          value = encoded;
          size = size;
          expires_at = shift now c.ttl;
          last_accessed_at = now;
        } in
        evict_rows c fuel (c.statements.save row db)
  ]
