-- ===== src/Server/Handle/Answers.antt =====
-- Every request gets one answer, in whole.
use native.Mathlib.Nat.{le_of_lt}
use selfdb.Base.{
  ℕ, ◌^◌, ◌≤◌, ◌<◌, ◌==◌, ◌≡◌, inl, inr, refl, ap, Bool, true, ◌||◌, [], ◌∷◌, ◌++◌, Option, some,
  Bytes, codes, starts_with, length, length-append, Outcome, ok, ◌>>=◌, defined, >>=-step, arith,
  Bool-cases, Option-cases, le→leb,
}
use selfdb.Server.Buffer.{Buffer}
use selfdb.Server.Button.{sanitize_button, sanitize_button-IsIdentifier}
use selfdb.Server.Render.{value_of, template_vars, render_page}
use selfdb.Server.Render.Expand.{expand}
use selfdb.Server.Render.Ends.{render-ends}
use selfdb.Server.Http.{Socket, Printer, status_text, head_text, head_size, respond, respond_text}
use selfdb.Server.Http.Send.{respond_complete}
use selfdb.Server.Database.{Site, Sqlite, sql_scalar, tables_sql}
use selfdb.Server.Json.{or_zero, quoted}
use selfdb.Server.Json.Objects.{stats_json-ends, tables_json-ends}
use selfdb.Server.Handle.{
  Server, json_mime, press_count_sql, press_size, press_json, press_printed, add_press, mime_of,
  serve_stats, table_rows, serve_tables, answer_press, serve_row,
}

-- What the C library and SQLite give: numbers of at most twenty digits, and a short version.
pub record IsPrinter (pr : Printer) : Type 0 where
  pub digits : (n : ℕ) → length (pr.decimal n) ≤ 20
  pub version : length pr.libversion ≤ 32

abbrev pub max_mime : ℕ
max_mime = 200

length-status_text : (status : ℕ) → length (status_text status) ≤ 21
unfolding status_text
length-status_text status = ground arith

-- The head of an answer fits into its 512 bytes where the mime type has at most 200.
pub head_text_fits :
    (pr : Printer) (status : ℕ) (mime : Bytes) (len : ℕ)
    → IsPrinter pr
    → length mime ≤ max_mime
    → length (head_text pr status mime len) < head_size
unfolding head_text
head_text_fits pr status mime len p h = omega (
  arith,
  length-append {0},
  length-status_text status,
  p.digits status,
  p.digits len,
  p.version,
  h,
)

-- The statuses that have a text of their own.
abbrev pub knows : ℕ → Bool
knows status = status == 200 || status == 400 || status == 404 || status == 405 || status == 500

-- What went out is one answer: the head, with the body's length in it, and the body.
pub record Answered (pr : Printer) (s s' : Socket) : Type 0 where
  pub status : ℕ
  pub mime : Bytes
  pub body : Bytes
  pub known : knows status ≡ true
  pub whole : s'.sent ≡ s.sent ++ (head_text pr status mime (length body) ++ body)

-- What the tables hold is of a usual size: fewer than 2 ^ 50 tables, counts of at most twenty digits,
-- mime types of at most 200 bytes, and pages that come to less than 2 ^ 63 bytes when filled in.
pub record IsUsual (q : Sqlite) (site : Site) : Type 0 where
  pub few : length site.tables < 2 ^ 50
  pub count :
      (button total : Bytes)
      → sql_scalar q (add_press site button) press_count_sql ≡ some total
      → length total ≤ 20
  pub rows :
      (path : Bytes) (mime : Option Bytes) (body : Bytes)
      → site.routes path ≡ some (mime, body)
      → (length (mime_of mime) ≤ max_mime)
        × (length (
              expand
                (value_of (λ sql. sql_scalar q site (codes sql)) template_vars)
                (length body)
                body)
            < 2 ^ 63)

length-press_json :
    (total : Option Bytes) (button : Bytes)
    → length (or_zero total) ≤ 20
    → length button < 32
    → length (press_json total button) < press_size
unfolding press_json
length-press_json total button h l =
    let tail =
      codes "," ++ (quoted (codes "button") ++ (codes ":" ++ (quoted button ++ codes "}"))) in
    omega (
      arith,
      length-append {0} (or_zero total) tail,
      length-append {0} (button ++ b'"' ∷ []) (codes "}"),
      length-append {0} button (b'"' ∷ []),
      h,
      l,
    )

-- So the answer to a press fits into its 128 bytes.
pub press_json_fits :
    (q : Sqlite) (site : Site) (raw : Bytes)
    → IsUsual q site
    → length (
        press_json
          (sql_scalar q (add_press site (sanitize_button raw)) press_count_sql)
          (sanitize_button raw))
      < press_size
press_json_fits q site raw u =
    let button = sanitize_button raw in
    let total = sql_scalar q (add_press site button) press_count_sql in
    let short : length (or_zero total) ≤ 20 = elim (Option-cases total) [
      | inl absent ↦ rw absent (omega arith)
      | inr (t, e) ↦ rw e (u.count button t e)
    ] in
    let (letters, some_there, small) = sanitize_button-IsIdentifier raw in
    length-press_json total button short small

module _ (sv : Server) (write : ℕ → ℕ → ℕ) (pr : IsPrinter sv.printer)
    (live : (k n : ℕ) → 0 < n → 0 < write k n) where
  abbrev pub Answers : Socket → Outcome Socket → Type 0
  Answers s o = (s' : Socket) × (o ≡ ok s') × Answered sv.printer s s'

  pub respond-Answers :
      (status : ℕ) (mime body : Bytes) (s : Socket)
      → knows status ≡ true
      → length mime ≤ max_mime
      → Answers s (respond write sv.printer status mime body s)
  respond-Answers status mime body s k h =
      let fits = head_text_fits sv.printer status mime (length body) pr h in
      let (s', e, w) = respond_complete write sv.printer status mime body s live fits in
      (s', e, record { status = status; mime = mime; body = body; known = k; whole = w })

  pub respond_text-Answers :
      (status : ℕ) (message : Bytes) (s : Socket)
      → knows status ≡ true
      → Answers s (respond_text write sv.printer status message s)
  unfolding respond_text
  respond_text-Answers status message s k = respond-Answers status _ message s k (omega arith)

  -- A text that is assembled first.
  assembled :
      (o : Outcome Buffer) (mime : Bytes) (s : Socket)
      → (b : Buffer) × (o ≡ ok b)
      → length mime ≤ max_mime
      → Answers s (o >>= λ b. respond write sv.printer 200 mime b.bytes s)
  assembled o mime s (b, e) h =
      let (s', e', a) = respond-Answers 200 mime b.bytes s refl h in (s', >>=-step _ e e', a)

  pub serve_stats-Answers : (site : Site) (s : Socket) → Answers s (serve_stats sv write site s)
  unfolding serve_stats
  serve_stats-Answers site s =
      assembled _ json_mime s (stats_json-ends sv.realloc _ template_vars sv.uptime (omega arith))
        (omega arith)

  pub serve_tables-Answers :
      (site : Site) (s : Socket) → IsUsual sv.sqlite site → Answers s (serve_tables sv write site s)
  unfolding serve_tables
  serve_tables-Answers site s u = elim (Bool-cases (sv.sqlite.prepares site tables_sql)) [
    | inl prepared ↦ rw prepared (
        assembled _ json_mime s
          (tables_json-ends sv.realloc (table_rows sv write site) site.tables u.few) (omega arith))
    | inr refused ↦ rw refused (respond_text-Answers 500 _ s refl)
  ]

  pub answer_press-Answers :
      (site : Site) (raw : Bytes) (s : Socket)
      → IsUsual sv.sqlite site
      → Answers s
          (answer_press sv write (add_press site (sanitize_button raw)) (sanitize_button raw) s)
  unfolding answer_press
  answer_press-Answers site raw s u =
      let button = sanitize_button raw in
      let total = sql_scalar sv.sqlite (add_press site button) press_count_sql in
      let fits = le→leb _ press_size (le_of_lt (press_json_fits sv.sqlite site raw u)) in
      let (s', e, a) =
        respond-Answers 200 json_mime (press_printed (press_json total button)) s refl
          (omega arith) in
      (s', >>=-step _ (ap defined fits) e, a)

  pub serve_row-Answers :
      (site : Site) (mime : Option Bytes) (body : Bytes) (s : Socket)
      → length (mime_of mime) ≤ max_mime
      → length (
          expand
            (value_of (λ sql. sql_scalar sv.sqlite site (codes sql)) template_vars)
            (length body)
            body)
        < 2 ^ 63
      → Answers s (serve_row sv write site mime body s)
  unfolding serve_row render_page
  serve_row-Answers site mime body s h l =
      elim (Bool-cases (starts_with (mime_of mime) (codes "text/html"))) [
        | inr plain ↦ rw plain (respond-Answers 200 (mime_of mime) body s refl h)
        | inl html ↦
            let (page, e, short) = render-ends sv.realloc _ body l in
            rw html (assembled _ (mime_of mime) s (page, e) h)
      ]
