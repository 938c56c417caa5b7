-- ===== src/Server/Http.antt =====
-- examples/server/server.c, the answers: `status_text`, `send_all`, `respond` and `respond_text`.
pub mod Send
use selfdb.Base.{
  ℕ, zero, suc, ◌+◌, ◌==◌, ltb, leb, if◌then◌else◌, List, [], ◌∷◌, ◌++◌, Bytes, codes, length, take,
  drop, Outcome, ok, fault, ◌>>=◌, ◌>>◌, defined,
}

-- A connection: the calls of `write` so far and all the bytes that they took.
pub record Socket : Type 0 where
  pub calls : ℕ
  pub sent : Bytes

unfoldable pub status_text : ℕ → Bytes
status_text status =
    if status == 200
    then codes "OK"
    else if status == 400
    then codes "Bad Request"
    else if status == 404
    then codes "Not Found"
    else if status == 405
    then codes "Method Not Allowed"
    else if status == 500
    then codes "Internal Server Error"
    else codes "Unknown"

abbrev pub crlf : Bytes
crlf = 13 ∷ 10 ∷ []

-- `sizeof head`
abbrev pub head_size : ℕ
head_size = 512

-- What the C library gives: a number's decimal digits and the version of SQLite.
pub record Printer : Type 0 where
  pub decimal : ℕ → Bytes
  pub libversion : Bytes

abbrev pub concat : List Bytes → Bytes
concat [] = []
concat (bs ∷ rest) = bs ++ concat rest

-- All that the format of `respond` asks for.
unfoldable pub head_text : Printer → ℕ → Bytes → ℕ → Bytes
head_text pr status mime len = concat (
    codes "HTTP/1.1 "
    ∷ pr.decimal status
    ∷ codes " "
    ∷ status_text status
    ∷ crlf
    ∷ codes "Server: self-httpd (SELF/SQLite "
    ∷ pr.libversion
    ∷ codes ")"
    ∷ crlf
    ∷ codes "Content-Type: "
    ∷ mime
    ∷ crlf
    ∷ codes "Content-Length: "
    ∷ pr.decimal len
    ∷ crlf
    ∷ codes "X-Served-From: sqlite-row"
    ∷ crlf
    ∷ codes "Connection: close"
    ∷ crlf
    ∷ crlf
    ∷ [])

-- What snprintf leaves in `head`: the text, or as much of it as goes before a NUL.
unfoldable pub printed : Bytes → Bytes
printed text = if ltb (length text) head_size then text else take 511 text ++ 0 ∷ []

module _ (write : ℕ → ℕ → ℕ) where
  -- `write k n` says how many of n bytes the call number k takes; 0 stands for an error too.
  -- A fault is a loop that the fuel does not finish.
  unfoldable pub send_from : ℕ → Bytes → Socket → Outcome Socket
  send_from zero [] s = ok s
  send_from zero (c ∷ cs) s = fault
  send_from (suc fuel) [] s = ok s
  send_from (suc fuel) (c ∷ cs) s =
      let n = write s.calls (length (c ∷ cs)) in
      let rest =
        send_from fuel (drop n (c ∷ cs))
          (record { calls = s.calls + 1; sent = s.sent ++ take n (c ∷ cs) }) in
      if n == 0 then ok (record { calls = s.calls + 1; sent = s.sent }) else rest

  unfoldable pub send_all : Bytes → Socket → Outcome Socket
  send_all bytes s = send_from (length bytes) bytes s

  -- snprintf returns the length of the whole text, and `send_all` reads that many bytes of `head`.
  unfoldable pub respond : Printer → ℕ → Bytes → Bytes → Socket → Outcome Socket
  respond pr status mime body s = do
    let text = head_text pr status mime (length body)
    defined (leb (length text) head_size)
    s1 ← send_all (printed text) s
    send_all body s1

  unfoldable pub respond_text : Printer → ℕ → Bytes → Socket → Outcome Socket
  respond_text pr status message s = respond pr status (codes "text/plain; charset=utf-8") message s
