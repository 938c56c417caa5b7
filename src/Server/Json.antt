-- ===== src/Server/Json.antt =====
-- examples/server/server.c, the JSON that the endpoints assemble: `buf_printf`, and the loops of
-- `serve_stats` and `serve_tables`.
pub mod Objects
use selfdb.Base.{
  ℕ, ◌-◌, ◌==◌, ltb, if◌then◌else◌, Bool, true, false, List, [], ◌∷◌, ◌++◌, Option, none, some,
  Bytes, codes, length, take, Outcome, ok, ◌>>=◌,
}
use selfdb.Server.Buffer.{Buffer, empty, buf_append}
use selfdb.Server.Render.{TemplateVar, ValueKind, value_number, value_text}

-- `sizeof line`
abbrev pub line_size : ℕ
line_size = 1024

abbrev pub quoted : Bytes → Bytes
quoted bs = b'"' ∷ (bs ++ b'"' ∷ [])

-- `value ? value : ""`
abbrev pub or_empty : Option Bytes → Bytes
or_empty none = []
or_empty (some bs) = bs

-- `rows ? rows : "0"`
abbrev pub or_zero : Option Bytes → Bytes
or_zero none = codes "0"
or_zero (some bs) = bs

-- `*shown ? shown : "0"`
abbrev pub shown_number : Bytes → Bytes
shown_number [] = codes "0"
shown_number (c ∷ cs) = c ∷ cs

abbrev pub separator : Bool → Bytes
separator true = []
separator false = codes ","

-- The value of a variable, bare or in quotes.
abbrev pub stats_value : ValueKind → Bytes → Bytes
stats_value value_number shown = shown_number shown
stats_value value_text shown = quoted shown

unfoldable pub stats_field : Bool → TemplateVar → Option Bytes → Bytes
stats_field first v value =
    separator first ++ (quoted v.name ++ (codes ":" ++ stats_value v.kind (or_empty value)))

unfoldable pub table_entry : Bool → Bytes → Option Bytes → Bytes
table_entry first name rows =
    separator first
    ++ (codes "{"
        ++ (quoted (codes "name")
            ++ (codes ":"
                ++ (quoted name
                    ++ (codes ","
                        ++ (quoted (codes "rows")
                            ++ (codes ":" ++ (or_zero rows ++ codes "}"))))))))

module _ (realloc : ℕ → Bool) where
  -- The text that vsnprintf makes of the format, as much of it as fits into `line`.
  unfoldable pub buf_printf : Bytes → Buffer → Outcome Buffer
  buf_printf text b =
      if length text == 0
      then ok b
      else buf_append realloc
          (if ltb (length text) line_size then text else take (line_size - 1) text) b

  -- The loop of `serve_stats`; `first` is `v == 0`.
  unfoldable pub stats_from :
      (TemplateVar → Option Bytes) → Bool → List TemplateVar → Buffer → Outcome Buffer
  stats_from value first [] b = ok b
  stats_from value first (v ∷ vs) b = do
    b' ← buf_printf (stats_field first v (value v)) b
    stats_from value false vs b'

  -- The loop of `serve_tables`; a NULL name is passed over.
  unfoldable pub tables_from :
      (Bytes → Option Bytes) → Bool → List (Option Bytes) → Buffer → Outcome Buffer
  tables_from rows first [] b = ok b
  tables_from rows first (none ∷ names) b = tables_from rows first names b
  tables_from rows first (some name ∷ names) b = do
    b' ← buf_printf (table_entry first name (rows name)) b
    tables_from rows false names b'

  unfoldable pub stats_json :
      (TemplateVar → Option Bytes) → List TemplateVar → Bytes → Outcome Buffer
  stats_json value vars uptime = do
    b ← buf_append realloc (codes "{") empty
    b' ← stats_from value true vars b
    buf_printf
        (codes "," ++ (quoted (codes "uptime_seconds") ++ (codes ":" ++ (uptime ++ codes "}")))) b'

  unfoldable pub tables_json : (Bytes → Option Bytes) → List (Option Bytes) → Outcome Buffer
  tables_json rows names = do
    b ← buf_append realloc (codes "[") empty
    b' ← tables_from rows true names b
    buf_append realloc (codes "]") b'
