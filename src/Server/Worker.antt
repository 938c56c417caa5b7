-- ===== src/Server/Worker.antt =====
-- examples/server/server.c, `serve_connection` and `worker_loop`: one connection after another, until
-- the worker is told to stop or `accept` fails.
pub mod Clean
use selfdb.Base.{
  ℕ, if◌then◌else◌, Bool, true, false, List, [], ◌∷◌, Option, none, some, Bytes, codes, Outcome, ok,
  fail, fault, ◌>>=◌,
}
use selfdb.Server.Http.{Socket, respond_text}
use selfdb.Server.Request.{Libc, Request, read_request}
use selfdb.Server.Database.{Site}
use selfdb.Server.Handle.{Server, reply, handle}

-- The other end of a connection, by what the calls of `read` and `write` on it give.
pub record Client : Type 0 where
  pub read : ℕ → ℕ → Bytes
  pub write : ℕ → ℕ → ℕ

abbrev pub fresh : Socket
fresh = record { calls = 0; sent = [] }

-- What `accept` returns: a connection, EINTR or ECONNABORTED, or another error; with that one comes
-- what `g_stopping` is at the end.
pub data Accept : Type 0 where
  connects : Client → Accept
  retries : Accept
  breaks : Bool → Accept

-- How far a worker has come: the site, the answers on its connections, and its exit status, `none`
-- while it waits in `accept`.
pub record Left : Type 0 where
  pub site : Site
  pub answers : List Socket
  pub status : Option ℕ

module _ (sv : Server) (libc : Libc) where
  -- What follows from what `read_request` returns.
  unfoldable pub answer_read : Client → Site → Outcome Request → Outcome (Site × Socket)
  answer_read c site (ok req) = handle sv c.write site req fresh
  answer_read c site fail =
      reply site (respond_text c.write sv.printer 400 (codes "malformed request\n") fresh)
  answer_read c site fault = fault

  unfoldable pub serve_connection : Client → Site → Outcome (Site × Socket)
  serve_connection c site = answer_read c site (read_request libc c.read)

  -- Each round: `g_stopping` as the loop finds it, and what `accept` gives where it is called.
  unfoldable pub worker_loop : Site → List (Bool × Accept) → Outcome Left
  worker_loop site [] = ok (record { site = site; answers = []; status = none })
  worker_loop site ((true, a) ∷ rest) = ok (record { site = site; answers = []; status = some 0 })
  worker_loop site ((false, connects c) ∷ rest) = do
    (site', s) ← serve_connection c site
    r ← worker_loop site' rest
    ok (record { site = r.site; answers = s ∷ r.answers; status = r.status })
  worker_loop site ((false, retries) ∷ rest) = worker_loop site rest
  worker_loop site ((false, breaks stopping) ∷ rest) =
      ok (record { site = site; answers = []; status = some (if stopping then 0 else 1) })

  -- The whole worker; without a database it exits at once.
  unfoldable pub worker : Bool → Site → List (Bool × Accept) → Outcome Left
  worker opens site rounds =
      if opens
      then worker_loop site rounds
      else ok (record { site = site; answers = []; status = some 1 })
