-- ===== src/Server/Start/Serves.antt =====
-- What holds when the server of examples/server/server.c comes to start its workers.
use selfdb.Base.{ℕ, ◌≤◌, ◌<◌, ◌==◌, ◌≡◌, true, some, Bytes}
use selfdb.Server.Database.{sql_scalar}
use selfdb.Server.Start.{JournalMode, Machine, spec_of, site_sql}

-- The file has the journal mode that was asked for, as SQLite reports it, and the three tables of a
-- site; the port is the one that was asked for, is a port, and is listened on.
pub record IsReady (w : Machine) (mode : JournalMode) (port : ℕ) : Type 0 where
  pub opens : w.opens ≡ true
  pub reported : Bytes
  pub journal : w.journal_after (spec_of mode).pragma ≡ some reported
  pub same : w.texts.strcasecmp reported (spec_of mode).name ≡ true
  pub found : Bytes
  pub counted : sql_scalar w.sqlite w.site site_sql ≡ some found
  pub three : (w.texts.atoi found == 3) ≡ true
  pub low : 0 < port
  pub high : port ≤ 65535
  pub listens : w.listens port ≡ true
