-- ===== src/Tests/Start.antt =====
-- examples/server/server.c, start-up with a command line.
use selfdb.Base.{
  ℕ, ◌+◌, ◌-◌, ◌*◌, ◌≡◌, refl, true, List, [], ◌∷◌, none, some, Bytes, codes, equal, All,
}
use selfdb.Server.Start.{
  journal_delete, journal_wal, Texts, default_options, parsed, parse_in, parse_journal_mode,
  is_help, parse_args, Machine,
}
use selfdb.Server.Start.Arguments.{
  Item, journal_item, port_item, args_of, IsItem, last_journal, last_port, parse_args_last,
}

abbrev digits : ℕ → Bytes → ℕ
digits n [] = n
digits n (d ∷ ds) = digits (n * 10 + (d - b'0')) ds

abbrev demo_texts : Texts
demo_texts = record { strcasecmp = equal; atoi = digits 0 }

abbrev demo_items : List Item
demo_items =
    journal_item (codes "delete") journal_delete
    ∷ port_item (codes "9000")
    ∷ journal_item (codes "wal") journal_wal
    ∷ []

demo_items-IsItem : All (IsItem demo_texts) demo_items
unfolding parse_journal_mode parse_in equal is_help
demo_items-IsItem = (refl, ((refl, refl), (refl, tt)))

parse_args_last_example :
    parse_args demo_texts (args_of demo_items) default_options
    ≡ parsed (record {
      port = last_port demo_texts demo_items 8080;
      journal = last_journal demo_items journal_delete;
    })
parse_args_last_example = parse_args_last demo_texts demo_items default_options demo_items-IsItem

abbrev demo_machine : Machine
demo_machine = record {
  texts = demo_texts;
  opens = true;
  journal_after = λ pragma. some (codes "wal");
  sqlite = record {
    prepares = λ site sql. true;
    done = λ site sql. true;
    first_row = λ site sql. some (some (codes "3"));
    count_sql = λ name. none;
  };
  site = record { visits = []; presses = []; routes = λ path. none; tables = [] };
  listens = λ port. true;
}
