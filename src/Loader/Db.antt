-- ===== src/Loader/Db.antt =====
-- What the loader reads of a .self database: the answers of its SQL queries (SQLite is not part of
-- the repository). loader/image.c, `self_db_open`, `self_get_int`, `self_get_text`, and the
-- die-based wrappers of loader/self-exec.c.
use selfdb.Base.{
  ℕ, ◌%◌, ◌^◌, ◌==◌, if◌then◌else◌, Bool, true, false, Option, none, some, List, String, Bytes,
  Outcome, ok, fail,
}

-- A row of `segments`. Each number is the bit pattern of the column's int64; a blob that is NULL
-- or empty is the empty list.
pub record Segment : Type 0 where
  pub is_load : Bool
  pub ptype : ℕ
  pub offset : ℕ
  pub vaddr : ℕ
  pub filesz : ℕ
  pub memsz : ℕ
  pub r : ℕ
  pub w : ℕ
  pub x : ℕ
  pub align : ℕ
  pub content : Bytes

-- The answers of an open database. `meta_int` and `meta_text` look a key up in `self_meta`, and
-- `none` is a key with no row; `segments` is `none` where the table cannot be read.
pub record Db : Type 0 where
  pub meta_int : String → Option ℕ
  pub meta_text : String → Option (Option Bytes)
  pub segments : Option (List Segment)

-- `sqlite3_column_int`: the low 32 bits of the column.
unfoldable pub column_int : ℕ → ℕ
column_int v = v % 2 ^ 32

-- A file as SQLite opens it: the outer `none` is a pragma that cannot be prepared, the inner one
-- a pragma without a row.
pub record DbFile : Type 0 where
  pub application_id : Option (Option ℕ)
  pub db : Db

abbrev pub self_application_id : ℕ
self_application_id = 0x53454C46

-- The option is the path's file: `none` where SQLite cannot open it.
unfoldable pub db_open : Option DbFile → Outcome Db
db_open none = fail
db_open (some file) = elim file.application_id [
  | none ↦ fail
  | some id ↦
      let app_id : ℕ = elim id [ none ↦ 0 | some v ↦ v % 2 ^ 32 ] in
      if app_id == self_application_id then ok file.db else fail
]

-- The value and `*found`.
unfoldable pub get_int : Db → String → ℕ × Bool
get_int db key = elim (db.meta_int key) [ none ↦ (0, false) | some v ↦ (v, true) ]

unfoldable pub get_text : Db → String → Option Bytes
get_text db key = elim (db.meta_text key) [ none ↦ none | some v ↦ v ]

-- `self_meta_int`: die() on a missing key.
unfoldable pub meta_int : Db → String → Outcome ℕ
unfolding get_int
meta_int db key = let (v, found) = get_int db key in if found then ok v else fail
