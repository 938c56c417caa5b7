-- ===== src/Server/Worker/Clean.antt =====
-- What holds of the site's tables whatever clients send to a worker.
use mathlib.Core.Path.{subst}
use selfdb.Base.{
  ℕ, suc, ◌+◌, ◌≤◌, ◌≡◌, ◌⊎◌, inl, inr, refl, ap, ◌∙◌, Bool, true, false, List, [], ◌∷◌, codes,
  equal, length, Outcome, ok, fail, fault, >>=-eq-ok, arith, All,
}
use selfdb.Server.Button.{sanitize_button, IsIdentifier, sanitize_button-IsIdentifier}
use selfdb.Server.Http.{Socket}
use selfdb.Server.Request.{Libc, Request, read_request}
use selfdb.Server.Database.{Site}
use selfdb.Server.Handle.{Server, before_query}
use selfdb.Server.Handle.Rows.{Grows, handle-Grows, reply-site}
use selfdb.Server.Worker.{
  Client, fresh, Accept, connects, retries, breaks, Left, answer_read, serve_connection,
  worker_loop,
}

-- Every button name in the table is an identifier that fits its buffer.
abbrev pub IsClean : Site → Type 0
IsClean site = All IsIdentifier site.presses

-- `site'` comes after `site` with `n` answers: it is clean, its pages are the same, and there are at
-- most `n` visits more.
pub record Serves (n : ℕ) (site site' : Site) : Type 0 where
  pub clean : IsClean site'
  pub visits : length site'.visits ≤ length site.visits + n
  pub routes : site'.routes ≡ site.routes

Serves-refl : (site : Site) → IsClean site → Serves 0 site site
Serves-refl site h = record { clean = h; visits = omega arith; routes = refl }

Serves-trans :
    (n : ℕ) (site site1 site2 : Site)
    → Serves 1 site site1
    → Serves n site1 site2
    → Serves (suc n) site site2
Serves-trans n site site1 site2 a b = record {
  clean = b.clean;
  visits = omega (arith, a.visits, b.visits);
  routes = b.routes ∙ a.routes;
}

Grows-Serves :
    (site site' : Site) (req : Request) → IsClean site → Grows site req site' → Serves 1 site site'
Grows-Serves site site' req h g = record {
  clean = clean g.presses;
  visits = visits g.visits;
  routes = g.routes;
}
  where
    clean :
        (site'.presses ≡ site.presses)
          ⊎ ((equal req.method (codes "POST") ≡ true)
              × (equal (before_query req.path) (codes "/api/press") ≡ true)
              × (site'.presses ≡ sanitize_button req.body ∷ site.presses))
        → IsClean site'
    clean (inl e) = rw e h
    clean (inr (m, p, e)) =
        let (letters, some_there, small) = sanitize_button-IsIdentifier req.body in
        rw e ((letters, small), h)

    visits :
        (site'.visits ≡ site.visits)
          ⊎ (site'.visits ≡ (req.user_agent, before_query req.path) ∷ site.visits)
        → length site'.visits ≤ length site.visits + 1
    visits (inl e) = rw e (omega arith)
    visits (inr e) = rw e (omega arith)

-- The record that the loop returns.
returned :
    (site : Site) (r0 r : Left)
    → ◌≡◌ {A = Outcome Left} (ok r0) (ok r)
    → Serves (length r0.answers) site r0.site
    → Serves (length r.answers) site r.site
returned site r0 r e h =
    let q : r0 ≡ r = cc in subst (λ z. Serves (length z.answers) site z.site) q h

module _ (sv : Server) (libc : Libc) where
  answer_read-Serves :
      (c : Client) (site site' : Site) (o : Outcome Request) (s' : Socket)
      → IsClean site
      → answer_read sv libc c site o ≡ ok (site', s')
      → Serves 1 site site'
  unfolding answer_read
  answer_read-Serves c site site' (ok req) s' h e =
      Grows-Serves site site' req h (handle-Grows sv c.write site site' req fresh s' e)
  answer_read-Serves c site site' fail s' h e =
      let same = reply-site _ _ _ _ e in
      record {
        clean = rw same h;
        visits = rw same (omega arith);
        routes = ap (λ (z : Site). z.routes) same;
      }
  answer_read-Serves c site site' fault s' h e = cc

  serve_connection-Serves :
      (c : Client) (site site' : Site) (s' : Socket)
      → IsClean site
      → serve_connection sv libc c site ≡ ok (site', s')
      → Serves 1 site site'
  unfolding serve_connection
  serve_connection-Serves c site site' s' h e =
      answer_read-Serves c site site' (read_request libc c.read) s' h e

  -- Whatever clients send, and however the worker ends: every stored button name is an identifier
  -- that fits its buffer, the pages are as they were, and there are at most as many new visits as
  -- answers. Conditions: the names that are stored at the start are such, and the loop returns.
  pub worker_loop-Serves :
      (site : Site) (rounds : List (Bool × Accept)) (r : Left)
      → IsClean site
      → worker_loop sv libc site rounds ≡ ok r
      → Serves (length r.answers) site r.site
  unfolding worker_loop
  worker_loop-Serves site [] r h e = returned site _ r e (Serves-refl site h)
  worker_loop-Serves site ((true, a) ∷ rest) r h e = returned site _ r e (Serves-refl site h)
  worker_loop-Serves site ((false, connects c) ∷ rest) r h e =
      let ((site', s), e1, h1) = >>=-eq-ok (serve_connection sv libc c site) _ e in
      let (r', e2, h2) = >>=-eq-ok (worker_loop sv libc site' rest) _ h1 in
      let first = serve_connection-Serves c site site' s h e1 in
      let others = worker_loop-Serves site' rest r' first.clean e2 in
      returned site _ r h2 (Serves-trans (length r'.answers) site site' r'.site first others)
  worker_loop-Serves site ((false, retries) ∷ rest) r h e = worker_loop-Serves site rest r h e
  worker_loop-Serves site ((false, breaks stopping) ∷ rest) r h e =
      returned site _ r e (Serves-refl site h)
