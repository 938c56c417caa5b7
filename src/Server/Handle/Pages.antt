-- ===== src/Server/Handle/Pages.antt =====
-- What a press leaves, and what its client gets.
use native.Mathlib.Nat.{le_of_lt}
use mathlib.Core.Path.{subst}
use selfdb.Base.{
  ◌∷◌, [], ◌∙◌, append_assoc, Bool-cases, inl, inr, ℕ, ◌<◌, ◌≤◌, ◌≡◌, ap, true, ◌++◌, some, Bytes,
  codes, equal, length, ok, >>=-step, refl, arith, lt→ltb, le→leb, defined,
}
use selfdb.Server.Button.{sanitize_button}
use selfdb.Server.Http.{Socket, head_text, respond}
use selfdb.Server.Http.Send.{respond_complete}
use selfdb.Server.Request.{Request}
use selfdb.Server.Database.{Sqlite, visit_sql, Site, record_visit, sql_scalar, press_sql}
use selfdb.Server.Handle.{
  Server, json_mime, press_count_sql, press_size, press_json, press_printed, add_press,
  before_query, reply, answer_press, serve_press, handle_post, handle,
}
use selfdb.Server.Handle.Answers.{IsPrinter, IsUsual, max_mime, head_text_fits, press_json_fits}

-- The site with the request's visit, and with its press on top; and the answer to the press.
abbrev pub visited : Server → Site → Request → Site
visited sv site req = record_visit sv.sqlite site req.user_agent (before_query req.path)

abbrev pub pressed : Server → Site → Request → Site
pressed sv site req = add_press (visited sv site req) (sanitize_button req.body)

abbrev pub press_text : Server → Site → Request → Bytes
press_text sv site req =
    press_json (sql_scalar sv.sqlite (pressed sv site req) press_count_sql)
      (sanitize_button req.body)

-- {"presses":N,"button":"NAME"}
abbrev pub press_object : Bytes → Bytes → Bytes
press_object total name =
    codes "{\"presses\":" ++ (total ++ (codes ",\"button\":\"" ++ (name ++ codes "\"}")))

press_json-press_object :
    (total name : Bytes) → press_json (some total) name ≡ press_object total name
unfolding press_json
press_json-press_object total name =
    ap (λ z. codes "{\"presses\":" ++ (total ++ (codes ",\"button\":\"" ++ z)))
      (append_assoc name (b'"' ∷ []) (codes "}"))

visit_keeps :
    (q : Sqlite) (site : Site) (ua path : Bytes)
    → ((record_visit q site ua path).presses ≡ site.presses)
      × ((record_visit q site ua path).routes ≡ site.routes)
unfolding record_visit
visit_keeps q site ua path = elim (Bool-cases (q.prepares site visit_sql)) [
  | inr e ↦ rw e (refl, refl)
  | inl e ↦ elim (Bool-cases (q.done site visit_sql)) [
    | inl e' ↦ rw (e, e') (refl, refl)
    | inr e' ↦ rw (e, e') (refl, refl)
  ]
]

module _ (sv : Server) (write : ℕ → ℕ → ℕ) (pr : IsPrinter sv.printer)
    (live : (k n : ℕ) → 0 < n → 0 < write k n) where
  -- Exactly this answer goes out.
  abbrev pub Gets : Socket → ℕ → Bytes → Bytes → Socket → Type 0
  Gets s status mime body s' =
      s'.sent ≡ s.sent ++ (head_text sv.printer status mime (length body) ++ body)

  gets :
      (status : ℕ) (mime body : Bytes) (s : Socket)
      → length mime ≤ max_mime
      → (s' : Socket) × (respond write sv.printer status mime body s ≡ ok s')
        × Gets s status mime body s'
  gets status mime body s h =
      respond_complete write sv.printer status mime body s live
        (head_text_fits sv.printer status mime (length body) pr h)

  pub handle-press_text :
      (site : Site) (req : Request) (s : Socket)
      → equal req.method (codes "POST") ≡ true
      → equal (before_query req.path) (codes "/api/press") ≡ true
      → sv.sqlite.prepares (visited sv site req) press_sql ≡ true
      → sv.sqlite.done (visited sv site req) press_sql ≡ true
      → IsUsual sv.sqlite (visited sv site req)
      → (s' : Socket) × (handle sv write site req s ≡ ok (pressed sv site req, s'))
        × Gets s 200 json_mime (press_text sv site req) s'
  unfolding handle handle_post serve_press answer_press press_printed reply
  handle-press_text site req s post press prepared stored u =
      let small = press_json_fits sv.sqlite (visited sv site req) req.body u in
      let fits = le→leb _ press_size (le_of_lt small) in
      let (s', e, g) = gets 200 json_mime (press_text sv site req) s (omega arith) in
      (
        s',
        rw (post, press, prepared, stored, lt→ltb _ press_size small)
            (>>=-step _ (>>=-step _ (ap defined fits) e) refl),
        g,
      )

  -- A press whose INSERT works is stored under its harmless name, in front of the presses that were
  -- there, with the pages as they were, and the client gets 200 and the JSON object of the count and
  -- the name. Conditions: a POST to /api/press, tables of a usual size, and that SQLite answers the
  -- query of the count, over the table with the press in it, with `total`.
  pub handle_press :
      (site : Site) (req : Request) (s : Socket) (total : Bytes)
      → equal req.method (codes "POST") ≡ true
      → equal (before_query req.path) (codes "/api/press") ≡ true
      → sv.sqlite.prepares (visited sv site req) press_sql ≡ true
      → sv.sqlite.done (visited sv site req) press_sql ≡ true
      → IsUsual sv.sqlite (visited sv site req)
      → sql_scalar sv.sqlite (pressed sv site req) press_count_sql ≡ some total
      → (site' : Site) × (s' : Socket) × (handle sv write site req s ≡ ok (site', s'))
        × (site'.presses ≡ sanitize_button req.body ∷ site.presses)
        × (site'.routes ≡ site.routes)
        × Gets s 200 (codes "application/json") (press_object total (sanitize_button req.body)) s'
  unfolding add_press
  handle_press site req s total post press prepared stored u counted =
      let (s', e, g) = handle-press_text site req s post press prepared stored u in
      let same = visit_keeps sv.sqlite site req.user_agent (before_query req.path) in
      let text : press_text sv site req ≡ press_object total (sanitize_button req.body) =
        ap (λ t. press_json t (sanitize_button req.body)) counted
        ∙ press_json-press_object total (sanitize_button req.body) in
      (
        pressed sv site req,
        s',
        e,
        ap (λ l. sanitize_button req.body ∷ l) same.0,
        same.1,
        subst (λ b. Gets s 200 json_mime b s') text g,
      )
