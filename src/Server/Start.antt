-- ===== src/Server/Start.antt =====
-- examples/server/server.c, start-up: the journal mode, the check of the site, the arguments and the
-- listening socket.
pub mod Arguments
pub mod Serves
use selfdb.Base.{
  ℕ, ◌%◌, ◌^◌, ◌==◌, ltb, if◌then◌else◌, Bool, true, false, not, ◌&&◌, ◌||◌, List, [], ◌∷◌, Option,
  none, some, Bytes, codes, equal,
}
use selfdb.Server.Database.{Site, Sqlite, sql_scalar}

pub data JournalMode : Type 0 where
  journal_delete journal_wal : JournalMode

-- A row of `JOURNAL_MODES`, with the mode that is its index.
pub record JournalSpec : Type 0 where
  pub mode : JournalMode
  pub name : Bytes
  pub pragma : Bytes

abbrev pub spec_of : JournalMode → JournalSpec
spec_of journal_delete = record {
  mode = journal_delete;
  name = codes "delete";
  pragma = codes "PRAGMA journal_mode=DELETE";
}
spec_of journal_wal = record {
  mode = journal_wal;
  name = codes "wal";
  pragma = codes "PRAGMA journal_mode=WAL";
}

abbrev pub journal_modes : List JournalSpec
journal_modes = spec_of journal_delete ∷ spec_of journal_wal ∷ []

-- Two functions of the C library: `strcasecmp(a, b) == 0`, and `atoi`, with 0 for a negative number,
-- which the code treats alike.
pub record Texts : Type 0 where
  pub strcasecmp : Bytes → Bytes → Bool
  pub atoi : Bytes → ℕ

unfoldable pub parse_in : Texts → Bytes → List JournalSpec → Option JournalMode
parse_in c name [] = none
parse_in c name (s ∷ rest) =
    let others = parse_in c name rest in if c.strcasecmp name s.name then some s.mode else others

unfoldable pub parse_journal_mode : Texts → Bytes → Option JournalMode
parse_journal_mode c name = parse_in c name journal_modes

pub record Options : Type 0 where
  pub port : ℕ
  pub journal : JournalMode

abbrev pub default_options : Options
default_options = record { port = 8080; journal = journal_delete }

-- The options, or an exit with `usage`: its status is 0 for help.
pub data Parsed : Type 0 where
  parsed : Options → Parsed
  usage : ℕ → Parsed

unfoldable pub is_help : Bytes → Bool
is_help arg = equal arg (codes "--help") || equal arg (codes "-h")

abbrev pub journal_flag : Bytes
journal_flag = codes "--journal"

-- `if (parse_journal_mode(...) != 0) return usage(...)`, and what follows.
unfoldable pub with_mode : Option JournalMode → (JournalMode → Parsed) → Parsed
with_mode none k = usage 2
with_mode (some m) k = k m

module _ (c : Texts) where
  -- The loop over `argv[1]` to the last; a flag that stands last is read as a port.
  unfoldable pub parse_args : List Bytes → Options → Parsed
  parse_args [] o = parsed o
  parse_args (a ∷ []) o = if is_help a then usage 0 else parsed (record o { port = c.atoi a })
  parse_args (a ∷ b ∷ rest) o = elim (is_help a) [
    | true ↦ usage 0
    | false ↦ elim (equal a journal_flag) [
      | true ↦ with_mode (parse_journal_mode c b) λ m. parse_args rest (record o { journal = m })
      | false ↦ parse_args (b ∷ rest) (record o { port = c.atoi a })
    ]
  ]

  -- `$PORT`, where it is set and not empty.
  unfoldable pub env_port : Option Bytes → Options → Options
  env_port none o = o
  env_port (some []) o = o
  env_port (some (d ∷ ds)) o = record o { port = c.atoi (d ∷ ds) }

  unfoldable pub env_journal : Option Bytes → Options → Parsed
  env_journal none o = parsed o
  env_journal (some []) o = parsed o
  env_journal (some (d ∷ ds)) o =
      with_mode (parse_journal_mode c (d ∷ ds)) λ m. parsed (record o { journal = m })

  -- `port <= 0 || port > 65535`
  unfoldable pub check_port : Parsed → Parsed
  check_port (usage n) = usage n
  check_port (parsed o) = if o.port == 0 || ltb 65535 o.port then usage 2 else parsed o

  unfoldable pub then_args : Parsed → List Bytes → Parsed
  then_args (usage n) args = usage n
  then_args (parsed o) args = parse_args args o

  -- The environment first, then the command line behind `argv[0]`.
  unfoldable pub options : Option Bytes → Option Bytes → List Bytes → Parsed
  options port journal args =
      check_port (then_args (env_journal journal (env_port port default_options)) args)

-- What start-up finds: whether the file can be opened; what "PRAGMA journal_mode" answers when the
-- pragma for a mode has been executed; the tables; and which ports can be listened on.
pub record Machine : Type 0 where
  pub texts : Texts
  pub opens : Bool
  pub journal_after : Bytes → Option Bytes
  pub sqlite : Sqlite
  pub site : Site
  pub listens : ℕ → Bool

-- The mode that SQLite reports is the one that was asked for.
unfoldable pub apply_journal_mode : Machine → JournalMode → Bool
apply_journal_mode w mode =
    w.opens && (elim (w.journal_after (spec_of mode).pragma) as (λ x. Bool) [
      | none ↦ false
      | some got ↦ w.texts.strcasecmp got (spec_of mode).name
    ])

abbrev pub site_sql : Bytes
site_sql =
    codes
      "SELECT count(*) FROM sqlite_schema WHERE type='table' AND name IN ('routes','visits','presses')"

unfoldable pub check_site : Machine → Bool
check_site w = w.opens && (elim (sql_scalar w.sqlite w.site site_sql) as (λ x. Bool) [
  | none ↦ false
  | some n ↦ w.texts.atoi n == 3
])

-- `htons((uint16_t)port)`; the result is the port that is bound.
unfoldable pub listen_on : Machine → ℕ → Option ℕ
listen_on w port = let p = port % 2 ^ 16 in if w.listens p then some p else none

-- `main` up to the fork loop: it exits, or the workers are started for a mode on a port.
pub data Startup : Type 0 where
  exit_with : ℕ → Startup
  serving : JournalMode → ℕ → Startup

unfoldable pub listening : JournalMode → Option ℕ → Startup
listening mode none = exit_with 1
listening mode (some port) = serving mode port

unfoldable pub start_with : Machine → Parsed → Startup
start_with w (usage n) = exit_with n
start_with w (parsed o) =
    if not (apply_journal_mode w o.journal) || not (check_site w)
    then exit_with 1
    else listening o.journal (listen_on w o.port)

unfoldable pub main : Machine → Option Bytes → Option Bytes → List Bytes → Startup
main w port journal args = start_with w (options w.texts port journal args)
