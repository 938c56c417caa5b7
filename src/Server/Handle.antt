-- ===== src/Server/Handle.antt =====
-- examples/server/server.c, the handlers: a request becomes rows and one answer.
pub mod Rows
pub mod Answers
pub mod Total
pub mod Pages
use selfdb.Base.{
  ℕ, ◌==◌, ltb, leb, if◌then◌else◌, Bool, true, false, not, ◌&&◌, List, [], ◌∷◌, ◌++◌, Option, none,
  some, Bytes, codes, equal, starts_with, length, take, Outcome, ok, fail, fault, ◌>>=◌, ◌>>◌,
  defined,
}
use selfdb.Server.Button.{sanitize_button}
use selfdb.Server.Render.{template_vars, render_page}
use selfdb.Server.Http.{Socket, Printer, respond, respond_text}
use selfdb.Server.Request.{Libc, Request, read_request}
use selfdb.Server.Database.{
  Site, Sqlite, sql_scalar, record_visit, press_sql, route_sql, tables_sql,
}
use selfdb.Server.Json.{quoted, or_zero, stats_json, tables_json}

-- What the process has at hand; `uptime` is the text of `time(NULL) - g_started_at`.
pub record Server : Type 0 where
  pub sqlite : Sqlite
  pub printer : Printer
  pub realloc : ℕ → Bool
  pub uptime : Bytes

abbrev pub json_mime : Bytes
json_mime = codes "application/json"

abbrev pub index_route : Bytes
index_route = codes "/index.html"

abbrev pub octet_stream : Bytes
octet_stream = codes "application/octet-stream"

abbrev pub press_count_sql : Bytes
press_count_sql = codes "SELECT count(*) FROM presses"

-- `sizeof json` of `serve_press`
abbrev pub press_size : ℕ
press_size = 128

unfoldable pub press_json : Option Bytes → Bytes → Bytes
press_json total button =
    codes "{"
    ++ (quoted (codes "presses")
        ++ (codes ":"
            ++ (or_zero total
                ++ (codes ","
                    ++ (quoted (codes "button") ++ (codes ":" ++ (quoted button ++ codes "}")))))))

-- What snprintf leaves in `json`.
unfoldable pub press_printed : Bytes → Bytes
press_printed text = if ltb (length text) press_size then text else take 127 text ++ 0 ∷ []

unfoldable pub add_press : Site → Bytes → Site
add_press site button = record site { presses = button ∷ site.presses }

-- `mime ? mime : "application/octet-stream"`
unfoldable pub mime_of : Option Bytes → Bytes
mime_of none = octet_stream
mime_of (some mime) = mime

-- The path up to the first `?`.
unfoldable pub before_query : Bytes → Bytes
before_query [] = []
before_query (c ∷ cs) = let rest = before_query cs in if c == b'?' then [] else c ∷ rest

-- An answer that changes no row.
unfoldable pub reply : Site → Outcome Socket → Outcome (Site × Socket)
reply site answer = do s ← answer; ok (site, s)

module _ (sv : Server) (write : ℕ → ℕ → ℕ) where
  unfoldable pub serve_stats : Site → Socket → Outcome Socket
  serve_stats site s = do
    json ←
        stats_json sv.realloc (λ v. sql_scalar sv.sqlite site (codes v.sql)) template_vars sv.uptime
    respond write sv.printer 200 json_mime json.bytes s

  -- `count_sql ? sql_scalar(db, count_sql) : NULL`
  unfoldable pub table_rows : Site → Bytes → Option Bytes
  table_rows site name = elim (sv.sqlite.count_sql name) [
    | none ↦ none
    | some sql ↦ sql_scalar sv.sqlite site sql
  ]

  unfoldable pub serve_tables : Site → Socket → Outcome Socket
  serve_tables site s =
      if sv.sqlite.prepares site tables_sql
      then (do
        json ← tables_json sv.realloc (table_rows site) site.tables
        respond write sv.printer 200 json_mime json.bytes s)
      else respond_text write sv.printer 500 (codes "cannot read sqlite_schema") s

  -- The part behind the INSERT: the count is that of the new rows.
  unfoldable pub answer_press : Site → Bytes → Socket → Outcome Socket
  answer_press site button s = do
    let json = press_json (sql_scalar sv.sqlite site press_count_sql) button
    defined (leb (length json) press_size)
    respond write sv.printer 200 json_mime (press_printed json) s

  unfoldable pub serve_press : Site → Bytes → Socket → Outcome (Site × Socket)
  serve_press site body s =
      let button = sanitize_button body in
      let refused =
        reply site (respond_text write sv.printer 500 (codes "cannot record the press") s) in
      if sv.sqlite.prepares site press_sql
      then if sv.sqlite.done site press_sql
        then reply (add_press site button) (answer_press (add_press site button) button s)
        else refused
      else refused

  -- A row of `routes`: HTML goes through `render`.
  unfoldable pub serve_row : Site → Option Bytes → Bytes → Socket → Outcome Socket
  serve_row site mime body s =
      if starts_with (mime_of mime) (codes "text/html")
      then (do
        page ← render_page sv.realloc (λ sql. sql_scalar sv.sqlite site (codes sql)) body
        respond write sv.printer 200 (mime_of mime) page.bytes s)
      else respond write sv.printer 200 (mime_of mime) body s

  unfoldable pub serve_route : Site → Bytes → Socket → Outcome Socket
  serve_route site path s =
      if sv.sqlite.prepares site route_sql
      then elim (site.routes path) [
        | none ↦ respond_text write sv.printer 404 (codes "no such row in routes\n") s
        | some (mime, body) ↦ serve_row site mime body s
      ]
      else respond_text write sv.printer 500
          (codes "no routes table: this executable has no website in it") s

  unfoldable pub handle_post : Site → Bytes → Bytes → Socket → Outcome (Site × Socket)
  handle_post site path body s =
      if equal path (codes "/api/press")
      then serve_press site body s
      else reply site (respond_text write sv.printer 404 (codes "no such endpoint\n") s)

  unfoldable pub handle_get : Site → Bytes → Socket → Outcome Socket
  handle_get site path s =
      if equal path (codes "/api/stats")
      then serve_stats site s
      else if equal path (codes "/api/tables")
      then serve_tables site s
      else serve_route site (if equal path (codes "/") then index_route else path) s

  -- The visit is recorded first, whatever the request is.
  unfoldable pub handle : Site → Request → Socket → Outcome (Site × Socket)
  handle site req s =
      let path = before_query req.path in
      let site' = record_visit sv.sqlite site req.user_agent path in
      if equal req.method (codes "POST")
      then handle_post site' path req.body s
      else if not (equal req.method (codes "GET")) && not (equal req.method (codes "HEAD"))
      then reply site' (respond_text write sv.printer 405 (codes "GET, HEAD or POST only\n") s)
      else reply site' (handle_get site' path s)
