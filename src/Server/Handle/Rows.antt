-- ===== src/Server/Handle/Rows.antt =====
-- What a request does to the tables of the site.
use selfdb.Base.{
  ℕ, ◌≡◌, ◌⊎◌, inl, inr, refl, ap, ◌∙◌, true, not, ◌&&◌, ◌∷◌, Bytes, codes, equal, Outcome, ok,
  >>=-eq-ok, Bool-cases,
}
use selfdb.Server.Button.{sanitize_button}
use selfdb.Server.Http.{Socket}
use selfdb.Server.Request.{Request}
use selfdb.Server.Database.{Site, Sqlite, record_visit, press_sql, visit_sql}
use selfdb.Server.Handle.{Server, before_query, reply, add_press, serve_press, handle_post, handle}

-- The rows that a request may add: one visit, which is its own; and one press, with the harmless
-- form of what the body names, for a POST to /api/press. Nothing else changes.
pub record Grows (site : Site) (req : Request) (site' : Site) : Type 0 where
  pub visits :
      (site'.visits ≡ site.visits)
      ⊎ (site'.visits ≡ (req.user_agent, before_query req.path) ∷ site.visits)
  pub presses :
      (site'.presses ≡ site.presses)
      ⊎ ((equal req.method (codes "POST") ≡ true)
          × (equal (before_query req.path) (codes "/api/press") ≡ true)
          × (site'.presses ≡ sanitize_button req.body ∷ site.presses))
  pub routes : site'.routes ≡ site.routes
  pub tables : site'.tables ≡ site.tables

-- A reply leaves the tables as they are.
pub reply-site :
    (site site' : Site) (answer : Outcome Socket) (s' : Socket)
    → reply site answer ≡ ok (site', s')
    → site' ≡ site
unfolding reply
reply-site site site' answer s' h = let (s, e, h') = >>=-eq-ok answer _ h in cc

-- `record_visit` touches nothing but the visits, and adds at most its own.
record_visit_cases :
    (q : Sqlite) (site : Site) (ua path : Bytes)
    → (record_visit q site ua path ≡ site)
      ⊎ (record_visit q site ua path ≡ record site { visits = (ua, path) ∷ site.visits })
unfolding record_visit
record_visit_cases q site ua path = elim (Bool-cases (q.prepares site visit_sql)) [
  | inr refused ↦ inl (rw refused refl)
  | inl prepared ↦ elim (Bool-cases (q.done site visit_sql)) [
    | inr busy ↦ inl (rw (prepared, busy) refl)
    | inl stored ↦ inr (rw (prepared, stored) refl)
  ]
]

module _ (sv : Server) (write : ℕ → ℕ → ℕ) where
  serve_press-site :
      (site site' : Site) (body : Bytes) (s s' : Socket)
      → serve_press sv write site body s ≡ ok (site', s')
      → (site' ≡ site) ⊎ (site' ≡ add_press site (sanitize_button body))
  unfolding serve_press
  serve_press-site site site' body s s' h = elim (Bool-cases (sv.sqlite.prepares site press_sql)) [
    | inr refused ↦ inl (reply-site _ _ _ _ (rw refused at h))
    | inl prepared ↦ elim (Bool-cases (sv.sqlite.done site press_sql)) [
      | inr busy ↦ inl (reply-site _ _ _ _ (rw (prepared, busy) at h))
      | inl stored ↦ inr (reply-site _ _ _ _ (rw (prepared, stored) at h))
    ]
  ]

  handle_post-site :
      (site site' : Site) (path body : Bytes) (s s' : Socket)
      → handle_post sv write site path body s ≡ ok (site', s')
      → (site' ≡ site)
        ⊎ ((equal path (codes "/api/press") ≡ true)
            × (site' ≡ add_press site (sanitize_button body)))
  unfolding handle_post
  handle_post-site site site' path body s s' h =
      elim (Bool-cases (equal path (codes "/api/press"))) [
        | inr other ↦ inl (reply-site _ _ _ _ (rw other at h))
        | inl press ↦ elim (serve_press-site site site' body s s' (rw press at h)) [
          | inl same ↦ inl same
          | inr added ↦ inr (press, added)
        ]
      ]

  -- The site after the visit, or with a press on top.
  handle-site :
      (site site' : Site) (req : Request) (s s' : Socket)
      → handle sv write site req s ≡ ok (site', s')
      → let site1 = record_visit sv.sqlite site req.user_agent (before_query req.path) in
        (site' ≡ site1)
        ⊎ ((equal req.method (codes "POST") ≡ true)
            × (equal (before_query req.path) (codes "/api/press") ≡ true)
            × (site' ≡ add_press site1 (sanitize_button req.body)))
  unfolding handle
  handle-site site site' req s s' h = elim (Bool-cases (equal req.method (codes "POST"))) [
    | inl post ↦ elim (handle_post-site _ site' _ req.body s s' (rw post at h)) [
      | inl same ↦ inl same
      | inr (press, added) ↦ inr (post, press, added)
    ]
    | inr other ↦
        elim (Bool-cases
          (not (equal req.method (codes "GET")) && not (equal req.method (codes "HEAD")))) [
            | inl refused ↦ inl (reply-site _ _ _ _ (rw (other, refused) at h))
            | inr read ↦ inl (reply-site _ _ _ _ (rw (other, read) at h))
          ]
  ]

  -- A request adds its own visit at most, and a press only where it asks for one; what it stores of
  -- a press is the harmless form of the name. No other row changes. Condition: the handler returns.
  pub handle-Grows :
      (site site' : Site) (req : Request) (s s' : Socket)
      → handle sv write site req s ≡ ok (site', s')
      → Grows site req site'
  unfolding add_press
  handle-Grows site site' req s s' h =
      grown (record_visit_cases sv.sqlite site req.user_agent (before_query req.path))
        (handle-site site site' req s s' h)
    where
      grown :
          {site1 : Site}
          → (site1 ≡ site)
            ⊎ (site1
                ≡ record site { visits = (req.user_agent, before_query req.path) ∷ site.visits })
          → (site' ≡ site1)
            ⊎ ((equal req.method (codes "POST") ≡ true)
                × (equal (before_query req.path) (codes "/api/press") ≡ true)
                × (site' ≡ add_press site1 (sanitize_button req.body)))
          → Grows site req site'
      grown (inl a) (inl b) = record {
        visits = inl (ap (λ (z : Site). z.visits) b ∙ ap (λ (z : Site). z.visits) a);
        presses = inl (ap (λ (z : Site). z.presses) b ∙ ap (λ (z : Site). z.presses) a);
        routes = ap (λ (z : Site). z.routes) b ∙ ap (λ (z : Site). z.routes) a;
        tables = ap (λ (z : Site). z.tables) b ∙ ap (λ (z : Site). z.tables) a;
      }
      grown (inl a) (inr (m, q, b)) = record {
        visits = inl (ap (λ (z : Site). z.visits) b ∙ ap (λ (z : Site). z.visits) a);
        presses = inr (
          m,
          q,
          ap (λ (z : Site). z.presses) b
              ∙ ap (λ (z : Site). sanitize_button req.body ∷ z.presses) a,
        );
        routes = ap (λ (z : Site). z.routes) b ∙ ap (λ (z : Site). z.routes) a;
        tables = ap (λ (z : Site). z.tables) b ∙ ap (λ (z : Site). z.tables) a;
      }
      grown (inr a) (inl b) = record {
        visits = inr (ap (λ (z : Site). z.visits) b ∙ ap (λ (z : Site). z.visits) a);
        presses = inl (ap (λ (z : Site). z.presses) b ∙ ap (λ (z : Site). z.presses) a);
        routes = ap (λ (z : Site). z.routes) b ∙ ap (λ (z : Site). z.routes) a;
        tables = ap (λ (z : Site). z.tables) b ∙ ap (λ (z : Site). z.tables) a;
      }
      grown (inr a) (inr (m, q, b)) = record {
        visits = inr (ap (λ (z : Site). z.visits) b ∙ ap (λ (z : Site). z.visits) a);
        presses = inr (
          m,
          q,
          ap (λ (z : Site). z.presses) b
              ∙ ap (λ (z : Site). sanitize_button req.body ∷ z.presses) a,
        );
        routes = ap (λ (z : Site). z.routes) b ∙ ap (λ (z : Site). z.routes) a;
        tables = ap (λ (z : Site). z.tables) b ∙ ap (λ (z : Site). z.tables) a;
      }
