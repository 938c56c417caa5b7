-- ===== src/Tests/Handle.antt =====
-- examples/server/server.c, the handlers and a worker on a small site.
use selfdb.Base.{
  ℕ, ◌<◌, ◌≡◌, refl, true, false, List, [], ◌∷◌, Option, none, some, Bytes, codes, equal,
  starts_with, length, Outcome, ok, fail, fault, Bool, arith,
}
use selfdb.Server.Buffer.{buf_append, put, wanted, double_until}
use selfdb.Server.Button.{sanitize_button, collect, allowed}
use selfdb.Server.Render.{TemplateVar, value_number, value_text, find_pair}
use selfdb.Server.Render.Expand.{expand}
use selfdb.Server.Http.{
  Socket, head_text, status_text, respond, respond_text, printed, send_all, send_from,
}
use selfdb.Server.Request.{
  Request, read_request, read_head, read_body, promised_body, content_length, user_agent, agent_at,
  skip_spaces,
}
use selfdb.Server.Database.{Site, Sqlite, sql_scalar, record_visit}
use selfdb.Server.Json.{stats_field, buf_printf, stats_from, stats_json}
use selfdb.Server.Handle.{
  Server, json_mime, press_json, add_press, mime_of, before_query, serve_press, answer_press, reply,
  handle, handle_post, press_printed,
}
use selfdb.Server.Handle.Rows.{Grows, handle-Grows}
use selfdb.Server.Handle.Answers.{IsPrinter, IsUsual}
use selfdb.Server.Handle.Total.{Serves, handle-Serves}
use selfdb.Server.Handle.Pages.{
  Gets, handle_press, handle-press_text, press_object, visited, pressed, press_text,
}
use selfdb.Server.Worker.{
  Client, Accept, connects, breaks, Left, fresh, worker_loop, serve_connection, answer_read,
}
use selfdb.Server.Worker.Clean.{worker_loop-Serves}
use selfdb.Server.Worker.Clean
use selfdb.Tests.Http.{demo_libc, demo_read}

-- Every statement works, and every query answers 7.
abbrev demo_sqlite : Sqlite
demo_sqlite = record {
  prepares = λ site sql. true;
  done = λ site sql. true;
  first_row = λ site sql. some (some (codes "7"));
  count_sql = λ name. some name;
}

abbrev demo_server : Server
demo_server = record {
  sqlite = demo_sqlite;
  printer = record { decimal = λ n. codes "200"; libversion = codes "3.45" };
  realloc = λ n. true;
  uptime = codes "12";
}

-- One row, which answers for each path.
abbrev demo_site : Site
demo_site = record {
  visits = [];
  presses = [];
  routes = λ path. some (some (codes "text/css"), codes "p{}");
  tables = some (codes "routes") ∷ [];
}

abbrev all_at_once : ℕ → ℕ → ℕ
all_at_once k n = n

all_at_once_live : (k n : ℕ) → 0 < n → 0 < all_at_once k n
all_at_once_live k n h = h

demo-IsPrinter : IsPrinter demo_server.printer
demo-IsPrinter = record { digits = λ n. omega arith; version = omega arith }

abbrev demo_press : Request
demo_press = record {
  method = codes "POST";
  path = codes "/api/press?x";
  user_agent = codes "curl";
  body = codes "go!";
}

demo-IsUsual : IsUsual demo_sqlite (visited demo_server demo_site demo_press)
unfolding record_visit sql_scalar mime_of expand find_pair before_query
demo-IsUsual = record {
  few = omega arith;
  count = λ button total e. let d : codes "7" ≡ total = cc in rw (← d) (omega arith);
  rows = λ path mime body e.
      let m : some (codes "text/css") ≡ mime = cc in
      let b : codes "p{}" ≡ body = cc in (rw (← m) (omega arith), rw (← b) (omega arith));
}

handle-Serves_example :
    Serves demo_server all_at_once demo-IsPrinter all_at_once_live fresh
      (handle demo_server all_at_once demo_site demo_press fresh)
handle-Serves_example =
    handle-Serves demo_server all_at_once demo-IsPrinter all_at_once_live demo_site demo_press fresh
      demo-IsUsual

press_run :
    (s' : Socket) × (handle demo_server all_at_once demo_site demo_press fresh
      ≡ ok (pressed demo_server demo_site demo_press, s'))
    × Gets demo_server all_at_once demo-IsPrinter all_at_once_live fresh 200 json_mime
        (press_text demo_server demo_site demo_press)
        s'
unfolding equal before_query
press_run =
    handle-press_text demo_server all_at_once demo-IsPrinter all_at_once_live demo_site demo_press
      fresh refl refl refl refl demo-IsUsual

press_text_run :
    press_text demo_server demo_site demo_press ≡ codes "{\"presses\":7,\"button\":\"go\"}"
unfolding press_json sql_scalar sanitize_button collect allowed
press_text_run = refl

handle-Grows_example : Grows demo_site demo_press (pressed demo_server demo_site demo_press)
handle-Grows_example =
    handle-Grows demo_server all_at_once demo_site (pressed demo_server demo_site demo_press)
      demo_press fresh press_run.0 press_run.1

handle_press_example :
    (site' : Site) × (s' : Socket) × (handle demo_server all_at_once demo_site demo_press fresh
      ≡ ok (site', s'))
    × (site'.presses ≡ sanitize_button demo_press.body ∷ demo_site.presses)
    × (site'.routes ≡ demo_site.routes)
    × Gets demo_server all_at_once demo-IsPrinter all_at_once_live fresh 200
        (codes "application/json")
        (press_object (codes "7") (sanitize_button demo_press.body))
        s'
unfolding equal before_query sql_scalar
handle_press_example =
    handle_press demo_server all_at_once demo-IsPrinter all_at_once_live demo_site demo_press fresh
      (codes "7") refl refl refl refl demo-IsUsual refl

-- Two variables and what the queries answer.
abbrev demo_vars : List TemplateVar
demo_vars =
    record { name = codes "visits"; sql = "a"; kind = value_number }
    ∷ record { name = codes "interp"; sql = "b"; kind = value_text }
    ∷ []

abbrev demo_value : TemplateVar → Option Bytes
demo_value v = elim v.kind [ value_number ↦ some (codes "7") | value_text ↦ none ]

stats_run :
    stats_json (λ n. true) demo_value demo_vars (codes "12")
    ≡ ok (record {
      bytes = codes "{\"visits\":7,\"interp\":\"\",\"uptime_seconds\":12}";
      cap = 1024;
    })
unfolding stats_json stats_from stats_field buf_printf buf_append wanted double_until put
stats_run = refl

-- A press, a client that says nothing, and the signal to stop.
abbrev demo_client : Client
demo_client = record { read = demo_read; write = all_at_once }

abbrev silent_client : Client
silent_client = record { read = λ k n. []; write = all_at_once }

abbrev demo_rounds : List (Bool × Accept)
demo_rounds =
    (false, connects demo_client) ∷ (false, connects silent_client) ∷ (true, breaks true) ∷ []

abbrev nothing : Left
nothing = record { site = demo_site; answers = []; status = none }

abbrev result : Outcome Left → Left
result (ok r) = r
result fail = nothing
result fault = nothing

demo_left : Left
demo_left = result (worker_loop demo_server demo_libc demo_site demo_rounds)

worker_run : worker_loop demo_server demo_libc demo_site demo_rounds ≡ ok demo_left
unfolding demo_left worker_loop serve_connection answer_read reply handle handle_post serve_press
    answer_press add_press press_json press_printed before_query record_visit sql_scalar respond
    respond_text head_text status_text printed send_all send_from read_request read_head read_body
    promised_body content_length user_agent agent_at skip_spaces starts_with equal sanitize_button
    collect allowed
worker_run = refl

worker_left : (demo_left.site.presses ≡ codes "abcde" ∷ []) × (demo_left.status ≡ some 0)
unfolding demo_left worker_loop serve_connection answer_read reply handle handle_post serve_press
    answer_press add_press press_json press_printed before_query record_visit sql_scalar respond
    respond_text head_text status_text printed send_all send_from read_request read_head read_body
    promised_body content_length user_agent agent_at skip_spaces starts_with equal sanitize_button
    collect allowed
worker_left = (refl, refl)

worker_loop-Serves_example : Clean.Serves (length demo_left.answers) demo_site demo_left.site
worker_loop-Serves_example =
    worker_loop-Serves demo_server demo_libc demo_site demo_rounds demo_left tt worker_run
