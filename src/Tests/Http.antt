-- ===== src/Tests/Http.antt =====
-- examples/server/server.c on one request and its answer.
use selfdb.Base.{
  ℕ, zero, suc, ◌+◌, ◌<◌, ◌==◌, ◌≡◌, ◌↔◌, refl, ltb, if◌then◌else◌, [], ◌∷◌, ◌++◌, Option, none,
  some, Bytes, codes, length, take, starts_with, ok, fault, arith,
}
use selfdb.Server.Http.{
  Socket, Printer, head_text, head_size, status_text, send_from, send_all, respond, crlf,
}
use selfdb.Server.Http.Send.{Sends, send_all-Sends, respond_complete, respond-fault_iff}
use selfdb.Server.Request.{
  Libc, Request, read_head, read_body, promised_body, read_request, content_length, user_agent,
  skip_spaces, agent_at,
}

abbrev fresh : Socket
fresh = record { calls = 0; sent = [] }

-- Three bytes at a time.
abbrev slow : ℕ → ℕ → ℕ
slow k n = if ltb n 3 then n else 3

slow_live : (k n : ℕ) → 0 < n → 0 < slow k n
slow_live k n h = ground arith

-- The second call fails.
abbrev broken : ℕ → ℕ → ℕ
broken k n = if k == 1 then 0 else 3

send_run : send_all broken (codes "hello") fresh ≡ ok (record { calls = 2; sent = codes "hel" })
unfolding send_all send_from
send_run = refl

send_all-Sends_example :
    (s' : Socket) × (send_all broken (codes "hello") fresh ≡ ok s')
    × Sends broken (codes "hello") fresh s'
send_all-Sends_example = send_all-Sends broken (codes "hello") fresh

abbrev demo_printer : Printer
demo_printer = record { decimal = λ n. codes "200"; libversion = codes "3.45" }

demo_short :
    length (head_text demo_printer 200 (codes "text/html") (length (codes "hi"))) < head_size
unfolding head_text status_text
demo_short = omega arith

respond_complete_example :
    (s' : Socket) × (respond slow demo_printer 200 (codes "text/html") (codes "hi") fresh ≡ ok s')
    × (s'.sent ≡ head_text demo_printer 200 (codes "text/html") 2 ++ codes "hi")
respond_complete_example =
    respond_complete slow demo_printer 200 (codes "text/html") (codes "hi") fresh slow_live
      demo_short

respond-fault_iff_example :
    (respond slow demo_printer 200 (codes "text/html") (codes "hi") fresh ≡ fault)
    ↔ (512 < length (head_text demo_printer 200 (codes "text/html") 2))
respond-fault_iff_example =
    respond-fault_iff slow demo_printer 200 (codes "text/html") (codes "hi") fresh

abbrev find_from : ℕ → Bytes → Bytes → Option ℕ
find_from i [] needle = none
find_from i (c ∷ cs) needle =
    let later = find_from (i + 1) cs needle in if starts_with (c ∷ cs) needle then some i else later

abbrev pub demo_libc : Libc
demo_libc = record {
  strstr = find_from 0;
  strcasestr = find_from 0;
  sscanf = λ bs. some (codes "POST", codes "/api/press");
  strtol = λ bs. 5;
}

abbrev demo_head : Bytes
demo_head =
    codes "POST /api/press HTTP/1.1" ++ (crlf ++ (codes "Content-Length: 5" ++ (crlf ++ crlf)))

-- The head comes with two bytes of the body, the others by themselves.
abbrev pub demo_read : ℕ → ℕ → Bytes
demo_read zero n = take n (demo_head ++ codes "ab")
demo_read (suc k) n = take n (codes "cdefg")

request_run :
    read_request demo_libc demo_read
    ≡ ok (record {
      method = codes "POST";
      path = codes "/api/press";
      user_agent = [];
      body = codes "abcde";
    })
unfolding read_request read_head read_body promised_body content_length user_agent agent_at
    skip_spaces starts_with
request_run = refl
