-- ===== src/Server/Database.antt =====
-- examples/server/server.c, the database that is also the program: `sql_scalar`, `record_visit`, and
-- the statements of the other handlers.
use selfdb.Base.{if◌then◌else◌, Bool, List, ◌∷◌, Option, none, some, Bytes, codes}

-- The tables. A visit is its user agent and its path; the newest row stands first, and the time that
-- SQLite writes to a row is left out. `routes` answers for a path with the row's mime type and body.
pub record Site : Type 0 where
  pub visits : List (Bytes × Bytes)
  pub presses : List Bytes
  pub routes : Bytes → Option (Option Bytes × Bytes)
  pub tables : List (Option Bytes)

-- SQLite's answers: whether a statement can be prepared; whether the step of an INSERT ends in
-- SQLITE_DONE; the first column of the first row, if there is a row; and
-- `sqlite3_mprintf("SELECT count(*) FROM \"%w\"", name)`.
pub record Sqlite : Type 0 where
  pub prepares : Site → Bytes → Bool
  pub done : Site → Bytes → Bool
  pub first_row : Site → Bytes → Option (Option Bytes)
  pub count_sql : Bytes → Option Bytes

-- No row, NULL and a failure are treated alike.
unfoldable pub sql_scalar : Sqlite → Site → Bytes → Option Bytes
sql_scalar q site sql =
    if q.prepares site sql
    then elim (q.first_row site sql) [ none ↦ none | some text ↦ text ]
    else none

abbrev pub visit_sql : Bytes
visit_sql = codes "INSERT INTO visits (at, ua, path) VALUES (datetime('now'), ?, ?)"

abbrev pub press_sql : Bytes
press_sql = codes "INSERT INTO presses (at, button) VALUES (datetime('now'), ?)"

abbrev pub route_sql : Bytes
route_sql = codes "SELECT mime, body FROM routes WHERE path = ?"

abbrev pub tables_sql : Bytes
tables_sql =
    codes
      "SELECT name FROM sqlite_schema WHERE type='table' AND name NOT LIKE 'sqlite_%' ORDER BY name"

-- The result of the step is not looked at.
unfoldable pub record_visit : Sqlite → Site → Bytes → Bytes → Site
record_visit q site ua path =
    if q.prepares site visit_sql
    then if q.done site visit_sql then record site { visits = (ua, path) ∷ site.visits } else site
    else site
