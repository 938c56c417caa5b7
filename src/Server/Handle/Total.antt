-- ===== src/Server/Handle/Total.antt =====
-- `handle` of examples/server/server.c, on all its branches.
use selfdb.Base.{
  ℕ, ◌<◌, ◌≡◌, inl, inr, not, ◌&&◌, Bytes, codes, equal, Outcome, ok, >>=-step, refl, Bool-cases,
  Option-cases,
}
use selfdb.Server.Button.{sanitize_button}
use selfdb.Server.Http.{Socket}
use selfdb.Server.Request.{Request}
use selfdb.Server.Database.{Site, record_visit, press_sql, route_sql}
use selfdb.Server.Handle.{
  Server, add_press, before_query, reply, serve_press, serve_route, handle_post, handle_get, handle,
}
use selfdb.Server.Handle.Answers.{
  IsPrinter, IsUsual, Answered, Answers, respond_text-Answers, serve_stats-Answers,
  serve_tables-Answers, answer_press-Answers, serve_row-Answers,
}

module _ (sv : Server) (write : ℕ → ℕ → ℕ) (pr : IsPrinter sv.printer)
    (live : (k n : ℕ) → 0 < n → 0 < write k n) where
  -- The handler returns, with some site, and has sent one answer.
  abbrev pub Serves : Socket → Outcome (Site × Socket) → Type 0
  Serves s o = (site' : Site) × (s' : Socket) × (o ≡ ok (site', s')) × Answered sv.printer s s'

  reply-Serves :
      (site : Site) (s : Socket) (answer : Outcome Socket)
      → Answers sv write pr live s answer
      → Serves s (reply site answer)
  unfolding reply
  reply-Serves site s answer (s', e, a) = (site, s', >>=-step _ e refl, a)

  serve_route-Answers :
      (site : Site) (path : Bytes) (s : Socket)
      → IsUsual sv.sqlite site
      → Answers sv write pr live s (serve_route sv write site path s)
  unfolding serve_route
  serve_route-Answers site path s u = elim (Bool-cases (sv.sqlite.prepares site route_sql)) [
    | inr refused ↦ rw refused (respond_text-Answers sv write pr live 500 _ s refl)
    | inl prepared ↦ elim (Option-cases (site.routes path)) [
      | inl absent ↦ rw (prepared, absent) (respond_text-Answers sv write pr live 404 _ s refl)
      | inr (row, e) ↦
          let (h, l) = u.rows path row.0 row.1 e in
          rw (prepared, e) (serve_row-Answers sv write pr live site row.0 row.1 s h l)
    ]
  ]

  serve_press-Serves :
      (site : Site) (body : Bytes) (s : Socket)
      → IsUsual sv.sqlite site
      → Serves s (serve_press sv write site body s)
  unfolding serve_press
  serve_press-Serves site body s u =
      let sorry_text =
        reply-Serves site s _
          (respond_text-Answers sv write pr live 500 (codes "cannot record the press") s refl) in
      elim (Bool-cases (sv.sqlite.prepares site press_sql)) [
        | inr refused ↦ rw refused sorry_text
        | inl prepared ↦ elim (Bool-cases (sv.sqlite.done site press_sql)) [
          | inr busy ↦ rw (prepared, busy) sorry_text
          | inl stored ↦
              rw (prepared, stored)
                (reply-Serves (add_press site (sanitize_button body)) s _
                  (answer_press-Answers sv write pr live site body s u))
        ]
      ]

  handle_post-Serves :
      (site : Site) (path body : Bytes) (s : Socket)
      → IsUsual sv.sqlite site
      → Serves s (handle_post sv write site path body s)
  unfolding handle_post
  handle_post-Serves site path body s u = elim (Bool-cases (equal path (codes "/api/press"))) [
    | inl press ↦ rw press (serve_press-Serves site body s u)
    | inr other ↦
        rw other (reply-Serves site s _ (respond_text-Answers sv write pr live 404 _ s refl))
  ]

  handle_get-Answers :
      (site : Site) (path : Bytes) (s : Socket)
      → IsUsual sv.sqlite site
      → Answers sv write pr live s (handle_get sv write site path s)
  unfolding handle_get
  handle_get-Answers site path s u = elim (Bool-cases (equal path (codes "/api/stats"))) [
    | inl stats ↦ rw stats (serve_stats-Answers sv write pr live site s)
    | inr other ↦ elim (Bool-cases (equal path (codes "/api/tables"))) [
      | inl tables ↦ rw (other, tables) (serve_tables-Answers sv write pr live site s u)
      | inr page ↦ rw (other, page) (serve_route-Answers site _ s u)
    ]
  ]

  -- Whatever the request, `handle` returns and has sent exactly one answer in whole: a head with one
  -- of the five statuses and the length of the body, and the body. Conditions: the numbers that the
  -- C library prints have at most twenty digits, each call of `write` takes at least one byte, and
  -- the tables, with the request's visit in them, are of a usual size.
  pub handle-Serves :
      (site : Site) (req : Request) (s : Socket)
      → IsUsual sv.sqlite (record_visit sv.sqlite site req.user_agent (before_query req.path))
      → Serves s (handle sv write site req s)
  unfolding handle
  handle-Serves site req s u =
      let site1 = record_visit sv.sqlite site req.user_agent (before_query req.path) in
      elim (Bool-cases (equal req.method (codes "POST"))) [
        | inl post ↦ rw post (handle_post-Serves site1 (before_query req.path) req.body s u)
        | inr other ↦
            elim (Bool-cases
              (not (equal req.method (codes "GET")) && not (equal req.method (codes "HEAD")))) [
                | inl refused ↦
                    rw (other, refused)
                      (reply-Serves site1 s _ (respond_text-Answers sv write pr live 405 _ s refl))
                | inr read ↦
                    rw (other, read)
                      (reply-Serves site1 s _
                        (handle_get-Answers site1 (before_query req.path) s u))
              ]
      ]
