-- ===== src/Server/Start/Arguments.antt =====
-- The command line of examples/server/server.c: of the modes and of the ports, the last one counts.
use selfdb.Base.{ℕ, ◌≡◌, refl, false, List, [], ◌∷◌, some, Bytes, equal, arith, All}
use selfdb.Server.Start.{
  JournalMode, Texts, Options, parsed, parse_journal_mode, is_help, journal_flag, with_mode,
  parse_args,
}

-- What a user writes: `--journal` with a name that stands for a mode, or a port.
pub data Item : Type 0 where
  journal_item : Bytes → JournalMode → Item
  port_item : Bytes → Item

abbrev pub args_of : List Item → List Bytes
args_of [] = []
args_of (journal_item name m ∷ rest) = journal_flag ∷ name ∷ args_of rest
args_of (port_item text ∷ rest) = text ∷ args_of rest

abbrev pub IsItem : Texts → Item → Type 0
IsItem c (journal_item name m) = parse_journal_mode c name ≡ some m
IsItem c (port_item text) = (is_help text ≡ false) × (equal text journal_flag ≡ false)

unfoldable pub last_journal : List Item → JournalMode → JournalMode
last_journal [] m = m
last_journal (journal_item name m' ∷ rest) m = last_journal rest m'
last_journal (port_item text ∷ rest) m = last_journal rest m

unfoldable pub last_port : Texts → List Item → ℕ → ℕ
last_port c [] p = p
last_port c (journal_item name m ∷ rest) p = last_port c rest p
last_port c (port_item text ∷ rest) p = last_port c rest (c.atoi text)

parse_args_port :
    (c : Texts) (text : Bytes) (rest : List Bytes) (o : Options)
    → is_help text ≡ false
    → equal text journal_flag ≡ false
    → parse_args c (text ∷ rest) o ≡ parse_args c rest (record o { port = c.atoi text })
unfolding parse_args
parse_args_port c text [] o h j = rw h refl
parse_args_port c text (b ∷ rest) o h j = ground arith

parse_args_journal :
    (c : Texts) (name : Bytes) (m : JournalMode) (rest : List Bytes) (o : Options)
    → parse_journal_mode c name ≡ some m
    → parse_args c (journal_flag ∷ name ∷ rest) o ≡ parse_args c rest (record o { journal = m })
unfolding parse_args is_help with_mode equal
parse_args_journal c name m rest o h = ground arith

-- For a command line of ports and of `--journal` with the name of a mode, in any order, the last mode
-- and the last port count, and what is not given stays as it was.
pub parse_args_last :
    (c : Texts) (items : List Item) (o : Options)
    → All (IsItem c) items
    → parse_args c (args_of items) o
      ≡ parsed (record { port = last_port c items o.port; journal = last_journal items o.journal })
unfolding last_journal last_port
parse_args_last c [] o h = unfold parse_args in refl
parse_args_last c (journal_item name m ∷ rest) o h =
    rw (parse_args_journal c name m (args_of rest) o h.0)
      (parse_args_last c rest (record o { journal = m }) h.1)
parse_args_last c (port_item text ∷ rest) o h =
    rw (parse_args_port c text (args_of rest) o h.0.0 h.0.1)
      (parse_args_last c rest (record o { port = c.atoi text }) h.1)
