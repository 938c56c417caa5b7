-- ===== src/Server/Render.antt =====
-- examples/server/server.c, `render`: `{{name}}` in a page becomes the value of that variable's
-- query; an unknown name stays as it is.
pub mod Expand
pub mod Template
pub mod Ends
use selfdb.Base.{
  ℕ, zero, suc, ◌+◌, ◌==◌, ◌≡◌, refl, ltb, if◌then◌else◌, Bool, ◌&&◌, List, [], ◌∷◌, ◌++◌, Option,
  none, some, Bytes, codes, drop, equal, length, String, Outcome, ok, fault, ◌>>=◌, ◌>>◌,
}
use selfdb.Server.Buffer.{Buffer, empty, buf_append}

-- `VALUE_NUMBER` is emitted bare in JSON, `VALUE_TEXT` in quotes.
pub data ValueKind : Type 0 where
  value_number value_text : ValueKind

pub record TemplateVar : Type 0 where
  pub name : Bytes
  pub sql : String
  pub kind : ValueKind

abbrev pub open_mark : Bytes
open_mark = b'{' ∷ b'{' ∷ []

abbrev pub close_mark : Bytes
close_mark = b'}' ∷ b'}' ∷ []

-- Put a byte in front of what stands before a match.
abbrev pub before : ℕ → Option (Bytes × Bytes) → Option (Bytes × Bytes)
before c none = none
before c (some (b, a)) = some (c ∷ b, a)

-- `memmem(s, len, "cc", 2)`: what stands before and after the first two bytes `c` in a row.
unfoldable pub find_pair : ℕ → Bytes → Option (Bytes × Bytes)
find_pair c [] = none
find_pair c (x ∷ []) = none
find_pair c (x ∷ y ∷ rest) =
    let later = before x (find_pair c (y ∷ rest)) in
    if x == c && y == c then some ([], rest) else later

module _ (sql_scalar : String → Option Bytes) where
  -- The first variable of that name, by its query; a query without an answer leaves none.
  unfoldable pub value_of : List TemplateVar → Bytes → Option Bytes
  value_of [] name = none
  value_of (v ∷ rest) name = if equal v.name name then sql_scalar v.sql else value_of rest name

-- What takes the place of a name: its value, or the text as it stands.
abbrev pub shown : Option Bytes → Bytes → Bytes
shown (some value) name = value
shown none name = open_mark ++ (name ++ close_mark)

module _ (realloc : ℕ → Bool) (value : Bytes → Option Bytes) where
  -- The loop on what is left of the page. The search for "}}" begins at the "{{", so the name is
  -- what it finds, less two bytes. A fault is a loop that the fuel does not finish.
  unfoldable pub render_from : ℕ → Bytes → Buffer → Outcome Buffer
  render_from zero [] out = buf_append realloc [] out
  render_from zero (c ∷ rest) out = fault
  render_from (suc fuel) rest out = elim (find_pair b'{' rest) [
    | none ↦ buf_append realloc rest out
    | some (text, after) ↦ elim (find_pair b'}' (open_mark ++ after)) [
      | none ↦ buf_append realloc rest out
      | some (name, rest') ↦ do
        out1 ← buf_append realloc text out
        out2 ← buf_append realloc (shown (value (drop 2 name)) (drop 2 name)) out1
        render_from fuel rest' out2
    ]
  ]

  unfoldable pub render : Bytes → Outcome Buffer
  render html = render_from (length html) html empty

-- `TEMPLATE_VARS`
abbrev pub template_vars : List TemplateVar
template_vars =
    record { name = codes "visits"; sql = "SELECT count(*) FROM visits"; kind = value_number }
    ∷ record { name = codes "presses"; sql = "SELECT count(*) FROM presses"; kind = value_number }
    ∷ record { name = codes "routes"; sql = "SELECT count(*) FROM routes"; kind = value_number }
    ∷ record {
      name = codes "site_bytes";
      sql = "SELECT coalesce(sum(length(body)), 0) FROM routes";
      kind = value_number;
    }
    ∷ record { name = codes "segments"; sql = "SELECT count(*) FROM segments"; kind = value_number }
    ∷ record { name = codes "symbols"; sql = "SELECT count(*) FROM symbols"; kind = value_number }
    ∷ record {
      name = codes "relocations";
      sql = "SELECT count(*) FROM relocations";
      kind = value_number;
    }
    ∷ record { name = codes "needed"; sql = "SELECT count(*) FROM needed"; kind = value_number }
    ∷ record {
      name = codes "tables";
      sql = "SELECT count(*) FROM sqlite_schema WHERE type='table'";
      kind = value_number;
    }
    ∷ record {
      name = codes "file_bytes";
      sql = "SELECT (SELECT * FROM pragma_page_count) * (SELECT * FROM pragma_page_size)";
      kind = value_number;
    }
    ∷ record {
      name = codes "page_size";
      sql = "SELECT * FROM pragma_page_size";
      kind = value_number;
    }
    ∷ record {
      name = codes "machine";
      sql = "SELECT value FROM self_meta WHERE key='machine'";
      kind = value_text;
    }
    ∷ record {
      name = codes "entry";
      sql = "SELECT printf('0x%x', value) FROM self_meta WHERE key='entry'";
      kind = value_text;
    }
    ∷ record {
      name = codes "interp";
      sql = "SELECT value FROM self_meta WHERE key='interp'";
      kind = value_text;
    }
    ∷ record { name = codes "sqlite_version"; sql = "SELECT sqlite_version()"; kind = value_text }
    ∷ []

-- `render` over the table and the queries of the open database.
unfoldable pub render_page : (ℕ → Bool) → (String → Option Bytes) → Bytes → Outcome Buffer
render_page realloc sql_scalar html = render realloc (value_of sql_scalar template_vars) html
